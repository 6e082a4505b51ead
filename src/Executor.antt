-- ===== src/Executor.antt =====
-- executor/: the queues, the regions and the schedule of a plan.
pub mod Mpsc
pub mod Regions
pub mod Schedule
