-- ===== src/Orchestration/Scheduler.antt =====
-- src/nexusflow/orchestration/scheduler.py: the passes of an ExecutionScheduler. Each `async with` on
-- a fresh session is one access to the database or several, in the order of the code; a row that was
-- read stays as it was read. The latency metric and the text of messages of drain are not modelled.
pub mod Drain
pub mod Sweeps
pub mod Advance
pub mod Transacts
