-- ===== src/App/Exec.antt =====
-- web/public/app.js: the handlers of an execution. A handler is a function of the page, of the
-- answers it gets and of the state it starts from.
pub mod Broker
pub mod Composite
pub mod Confirm
pub mod Start
pub mod Landing
pub mod Readings
pub mod Arrival
pub mod Resell
pub mod Modal
pub mod Restore
pub mod Shown
mod Tests
pub mod Trustline
pub mod Buttons
