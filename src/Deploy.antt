-- ===== src/Deploy.antt =====
-- The signed deployments of a node: crates/agent/src/p2p/handlers and the files that they keep.
pub mod State
pub mod Crypto
pub mod Push
pub mod Apply
pub mod Upgrade
pub mod Restore
mod Sequence
pub mod Samples
mod Tests
