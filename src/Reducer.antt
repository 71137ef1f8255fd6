-- ===== src/Reducer.antt =====
-- crates/coppice-names/src/reducer.rs: the deterministic canonical reducer.
pub mod State
pub mod Records
pub mod Maintenance
pub mod Transactions
pub mod Blocks
pub mod Rollback
pub mod Indexes
pub mod Edits
pub mod Resolution
