-- ===== src/Protocol.antt =====
-- crates/coppice-names/src/protocol.rs: the protocol's values and their validation.
--
-- A byte string is the list of its bytes. The newtypes over `[u8; 32]` are byte strings, and what
-- their constructors check is a function of its own.
pub mod External
pub mod Names
pub mod References
unfoldable pub use External.*
unfoldable pub use Names.*
unfoldable pub use References.*
