-- ===== src/Cli.antt =====
-- The commands of crates/agent/src/cmd that publish signed messages: upgrades and pushes.
pub mod Keys
pub mod Text
pub mod Upgrade
pub mod Push
mod Tests
