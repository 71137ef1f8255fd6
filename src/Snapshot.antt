-- ===== src/Snapshot.antt =====
-- Snapshots of the reducer and of the exact resolver: `save_snapshot` and `load_snapshot` of
-- crates/coppice-names/src/reducer.rs and crates/coppice-names/src/resolver.rs.
pub mod Stored
pub mod Checks
pub mod Rebuild
pub mod Reducers
pub mod Loaded
unfoldable pub use Stored.*
unfoldable pub use Checks.*
unfoldable pub use Rebuild.*
unfoldable pub use Reducers.*
