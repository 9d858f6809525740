-- ===== src/Store.antt =====
-- rescan/store.py: the tables, and what holds of them after any sequence of operations.
pub mod Rows
pub mod Operations
pub mod Calls
pub mod Reads
pub mod Trails
pub mod Tables
pub mod Invariant
pub mod Trail
pub mod Dedup
