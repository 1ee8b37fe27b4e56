-- ===== src/Lifecycle.antt =====
-- The life of task and attempt rows under the transactions of
-- src/nexusflow/persistence/transactions.py: the moves that a row may make, what each transaction
-- does to the two tables, and what every sequence of transactions keeps.
pub mod Moves
pub mod Effect
pub mod Changes
pub mod Consistent
pub mod Steps
pub mod Step
pub mod Evolve
pub mod Safety
pub mod Claiming
