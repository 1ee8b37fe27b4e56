-- ===== src/Orchestration.antt =====
-- src/nexusflow/orchestration: the registry of worker sessions, and the scheduler, whose passes lead
-- from transaction to transaction.
pub mod Registry
pub mod Pass
pub mod Follows
pub mod Scheduler
