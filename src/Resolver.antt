-- ===== src/Resolver.antt =====
-- crates/coppice-names/src/resolver.rs: replay for one name.
--
-- The resolver is a reducer that is given every block without the REVEALs and REFRESHes of other
-- names. Actions and COMMITs stay.
pub mod Filter
pub mod Exact
pub mod Snapshots
pub mod Checks
pub mod Follows
pub mod Replays
pub mod Agrees
unfoldable pub use Filter.*
unfoldable pub use Snapshots.*
unfoldable pub use Exact.*
