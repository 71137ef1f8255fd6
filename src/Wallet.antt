-- ===== src/Wallet.antt =====
-- crates/coppice-names-wallet: the wallet's decision on its bond, and the sealed checkpoints.
pub mod Bond
pub mod Checkpoint
