-- ===== src/Binary.antt =====
-- The header sniffer of crates/agent/src/p2p/handlers/util.rs, which decides whether an upgrade's
-- binary can run on this host. An indexing or slicing that Rust would panic on is `none` of the
-- outer `Option`; the inner one is the code's own `Option`.
pub mod Bytes
pub mod Elf
pub mod MachO
pub mod Pe
pub mod Host
pub mod Safety
mod Detect
pub mod Accept
mod Universal
mod Tests
