-- ===== src/Transport.antt =====
-- crates/coppice-names/src/transport.rs: where an action of a block stands in the Ironwood
-- commitment tree.
pub mod Positions
pub mod Inspection
