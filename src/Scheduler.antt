-- ===== src/Scheduler.antt =====
-- The embedding scheduler (src/scheduler/mod.rs).
pub mod Retry
pub mod Batch
pub mod Round
pub mod Submit
