-- ===== src/Core.antt =====
-- core/: the quoting engine.
pub mod Amount
pub mod Types
pub mod Rank
pub mod Executable
pub mod Eurc
pub mod RpcSelect
pub mod Prices
pub mod Engine
pub mod Split
pub mod Route
