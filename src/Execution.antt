-- ===== src/Execution.antt =====
-- The runs of jobs: crates/agent/src/p2p/jobs.rs, jobs_wasm.rs, jobs_native.rs and jobs_qemu.rs.
pub mod Policy
pub mod Site
pub mod Staging
pub mod Qemu
pub mod Runs
pub mod Jobs
pub mod Logic
mod Tests
