-- ===== src/Collector.antt =====
-- collector/: what a tick stores.
pub mod Rows
pub mod Coherence
pub mod Tick
pub mod Scheduler
