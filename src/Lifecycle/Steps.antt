-- ===== src/Lifecycle/Steps.antt =====
-- The effect of each transaction of src/nexusflow/persistence/transactions.py on the tables of tasks
-- and attempts.
pub mod Tasks
pub mod Settles
pub mod Internal
pub mod Claims
pub mod Others
pub mod Population
pub mod Registration
