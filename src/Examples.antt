-- ===== src/Examples.antt =====
-- Tests and instances: a small chain with toy cryptography, run through the definitions.
mod Chain
mod Wire
mod Restart
mod Lifecycle
mod Following
mod Timing
mod Reorganization
mod Database
mod Stores
mod Wallets
mod Positions
mod Deployments
mod Inspections
