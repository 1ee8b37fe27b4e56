-- ===== src/Store.antt =====
-- src/nexusflow/persistence/orm.py: the tables as lists of rows.
pub mod Table
pub mod Records
