-- ===== src/Storage.antt =====
-- src/stakeroute/storage: the SQLite tables as lists of rows, and the operations of `Repository`.
pub mod Rows
pub mod Tables
pub mod Repository
pub mod Ledger
pub mod Queries
pub mod Reset
