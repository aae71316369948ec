-- ===== src/JobManager/Sync.antt =====
-- `JobManager::sync_job` and `sync_jobs` of crates/agent/src/job_manager.rs.
pub mod Merge
use peer_deploy.Prelude.{
  ℕ, String, Bool, true, false, Option, none, some, List, [], ◌∷◌, ltb, if◌then◌else◌,
}
use peer_deploy.Prelude.Dict
use peer_deploy.Prelude.Dict.{Dict}
use peer_deploy.Common.Job.{JobInstance}
use peer_deploy.JobManager.State.{JobManager, Codec, try_save}

-- `if job.updated_at > local.updated_at { *local = job; }`
abbrev pub newer : JobInstance → JobInstance → JobInstance
newer job local = if ltb local.updated_at job.updated_at then job else local

-- The table after `sync_job`.
unfoldable pub merge : JobInstance → Dict JobInstance → Dict JobInstance
merge job jobs = elim (Dict.get jobs job.id) [
  | none ↦ Dict.insert job.id job jobs
  | some _ ↦ Dict.modify job.id (newer job) jobs
]

unfoldable pub sync_job : JobInstance → JobManager → JobManager
unfolding merge
sync_job job m = record m { state = record m.state { jobs = merge job m.state.jobs } }

unfoldable pub sync_each : List JobInstance → JobManager → JobManager
unfolding sync_job
sync_each [] m = m
sync_each (job ∷ jobs) m = sync_each jobs (sync_job job m)

unfoldable pub sync_jobs : Codec → Bool → List JobInstance → JobManager → JobManager
unfolding sync_each
sync_jobs json writable jobs m = try_save json writable (sync_each jobs m)
