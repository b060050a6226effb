-- ===== src/Web.antt =====
-- web/: the HTTP server's side.
pub mod RequestIp
pub mod Execute
pub mod Quotes
pub mod Limits
pub mod Server
