-- ===== src/Web/Quotes.antt =====
-- web/quote-api.ts: the live quote of the page.
pub mod Resim
pub mod Names
pub mod Shapes
pub mod Ladder
pub mod Live
