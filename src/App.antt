-- ===== src/App.antt =====
-- The page (web/public): what the Execute button runs, and the state of an execution.
pub mod Choose
pub mod State
pub mod Exec
