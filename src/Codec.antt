-- ===== src/Codec.antt =====
-- crates/coppice-names/src/codec.rs: the wire codec of operations.
pub mod Bytewise
pub mod Encode
pub mod Decode
pub mod Reads
pub mod RoundTrip
pub mod Aliases
