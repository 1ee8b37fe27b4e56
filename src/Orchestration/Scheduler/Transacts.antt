-- ===== src/Orchestration/Scheduler/Transacts.antt =====
-- src/nexusflow/orchestration/scheduler.py: a drain goes by transactions only.
pub mod Drain
