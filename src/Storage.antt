-- ===== src/Storage.antt =====
-- crates/agent/src/storage/mod.rs, and the reassembly of chunked blobs in crates/agent/src/p2p/mod.rs.
pub mod Store
pub mod Chunks
pub mod Integrity
pub mod Torn
pub mod Held
pub mod Collect
pub mod Reassembly
mod Tests
