-- ===== src/Transactions.antt =====
-- src/nexusflow/persistence/transactions.py: every transaction is a function of its arguments and
-- the database, which returns its outcome and the database that it leaves behind. Leaving the
-- `async with` block by `return` commits what was written so far; only an exception rolls back.
pub mod Outcome
pub mod Registration
pub mod Creation
pub mod Readiness
pub mod Ownership
pub mod Success
pub mod Failure
pub mod Direction
pub mod Drain
pub mod Settlement
