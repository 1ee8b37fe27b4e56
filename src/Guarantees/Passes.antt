-- ===== src/Guarantees/Passes.antt =====
-- What a whole pass of src/nexusflow/orchestration/scheduler.py does, if nothing comes between.
pub mod Sweeps
pub mod Advance
