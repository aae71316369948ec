-- ===== src/P2p.antt =====
-- The event loop of crates/agent/src/p2p/mod.rs.
pub mod Broadcasts
pub mod Status
pub mod Submit
mod Accept
pub mod Duplicates
pub mod Delivery
pub mod Samples
mod Tests
pub mod Content
pub mod Roles
pub mod Sync
pub mod Select
