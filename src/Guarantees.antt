-- ===== src/Guarantees.antt =====
-- What single transactions of src/nexusflow/persistence/transactions.py guarantee, and what whole passes
-- of src/nexusflow/orchestration/scheduler.py do.
pub mod Settled
pub mod Endings
pub mod Completed
pub mod Repeated
pub mod Callbacks
pub mod Passes
pub mod Drained
pub mod Entities
