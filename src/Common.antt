-- ===== src/Common.antt =====
-- crates/common/src/lib.rs: the types that every part of the program shares.
pub mod Component
pub mod Job
pub mod Signed
pub mod Targeting
mod Tests
