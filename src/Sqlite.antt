-- ===== src/Sqlite.antt =====
-- crates/coppice-names-sqlite/src/lib.rs: the store that keeps the records of a reducer in a
-- SQLite database, one delta at a time.
pub mod Identity
pub mod Tables
pub mod Session
pub mod Records
pub mod Deltas
pub mod Rewind
pub mod Store
pub mod Journal
pub mod Sound
pub mod Opening
pub mod Observations
pub mod Authority
