-- ===== src/JobManager.antt =====
-- crates/agent/src/job_manager.rs: the jobs that a node knows, and what is persisted of them.
pub mod State
pub mod Operations
pub mod Listing
pub mod Schedule
pub mod Sync
pub mod Coherence
pub mod Artifacts
pub mod Others
pub mod Cancel
mod Ids
mod Tests
