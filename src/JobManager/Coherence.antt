-- ===== src/JobManager/Coherence.antt =====
-- The table of jobs stays well formed under the calls of crates/agent/src/job_manager.rs that change it.
mod Steps
mod Files
pub mod Runs
use peer_deploy.Prelude.{
  ℕ, String, ◌≡◌, refl, Bool, true, false, Option, none, some, List, [], ◌∷◌, All, arith,
  if◌then◌else◌,
}
use peer_deploy.Prelude.Dict.{Dict, is_some}
use peer_deploy.Prelude.Entries.{Entries, NodupKeys}
use peer_deploy.Prelude.Int.{ℤ}
use peer_deploy.Common.Job.{
  JobInstance, JobSpec, JobArtifact, JobStatus, Clock, pending, running, completed, failed,
  cancelled,
}
use peer_deploy.JobManager.State.{JobManager, JobManagerState, RunningJob, Codec, load_from_disk}
use peer_deploy.JobManager.Artifacts
use peer_deploy.Storage.Store.{Bytes}
use peer_deploy.JobManager.Operations
use peer_deploy.JobManager.Sync
use peer_deploy.JobManager.Schedule
use peer_deploy.JobManager.Schedule.{Cron}

-- What a status says of the times, the exit code and the node of a job.
abbrev pub StatusFits : JobStatus → Option ℕ → Option ℕ → Option ℤ → Option String → Type 0
StatusFits pending started_at completed_at exit_code assigned_to =
    (started_at ≡ none) × (completed_at ≡ none) × (exit_code ≡ none)
StatusFits running started_at completed_at exit_code assigned_to =
    (is_some started_at ≡ true) × (is_some assigned_to ≡ true)
StatusFits completed started_at completed_at exit_code assigned_to =
    (is_some completed_at ≡ true) × (is_some exit_code ≡ true)
StatusFits failed started_at completed_at exit_code assigned_to = is_some completed_at ≡ true
StatusFits cancelled started_at completed_at exit_code assigned_to = is_some completed_at ≡ true

-- A job stands under its own id, and its fields fit its status.
abbrev pub IsCoherent : String → JobInstance → Type 0
IsCoherent key job =
    (job.id ≡ key)
    × StatusFits job.status job.started_at job.completed_at job.exit_code job.assigned_node

pub record IsValid (m : JobManager) : Type 0 where
  pub coherent : Entries IsCoherent m.state.jobs
  pub nodup : NodupKeys m.state.jobs

-- A call of a method that changes the manager, with what its surroundings give: whether the file can be written, the readings
-- of the clock, and the arguments.
pub data Call : Type 0 where
  submit : Bool → Clock → JobSpec → Option String → Option String → Call
  assign : Bool → Clock → String → String → Call
  start : Bool → Clock → String → Call
  complete : Bool → Clock → String → ℤ → Call
  fail : Bool → Clock → String → String → Call
  cancel : Bool → Clock → String → Call
  log : Clock → String → String → String → Call
  artifact : Bool → Clock → String → JobArtifact → Call
  register : String → RunningJob → Call
  unregister : String → Call
  sync : Bool → List JobInstance → Call
  schedules : ℕ → (ℕ → ℕ) → ℕ → Call
  -- whether the file can be read, and what it holds by then
  load : Bool → Option String → Call
  -- the hash, the paths that can be written, the directory of the artifacts and whether it can be made,
  -- the id of the job, its artifacts, and the files
  stage :
      (Bytes → String)
      → (String → Bool)
      → String
      → Bool
      → Clock
      → ℕ
      → String
      → List JobArtifact
      → Dict Bytes
      → Call

module _ (json : Codec) (cron : Cron) where
  unfoldable pub call : Call → JobManager → JobManager
  call (submit w now spec origin id) m = (Operations.submit_job json w now spec origin id m).1
  call (assign w now id node) m = Operations.assign_job json w now id node m
  call (start w now id) m = Operations.start_job json w now id m
  call (complete w now id code) m = Operations.complete_job json w now id code m
  call (fail w now id error) m = Operations.fail_job json w now id error m
  call (cancel w now id) m = (Operations.cancel_job json w now id m).1
  call (log now id level message) m = Operations.add_job_log now id level message m
  call (artifact w now id a) m = Operations.add_job_artifact json w now id a m
  call (register id r) m = Operations.register_running_job id r m
  call (unregister id) m = (Operations.unregister_running_job id m).1
  call (sync w jobs) m = Sync.sync_jobs json w jobs m
  call (schedules now called stamp) m = (Schedule.evaluate_schedules cron now called stamp m).1
  call (load readable file) m = (load_from_disk json readable (record m { jobs_file = file })).1
  call (stage sha256_hex works root made now marked id artifacts files) m =
      (Artifacts.stage_artifacts sha256_hex works root now id made marked artifacts (files, m)).1

  unfoldable pub run : List Call → JobManager → JobManager
  run [] m = m
  run (c ∷ cs) m = run cs (call c m)

-- A table whose jobs stand under their ids and fit their status.
abbrev pub IsTable : Option JobManagerState → Type 0
IsTable none = Unit
IsTable (some s) = Entries IsCoherent s.jobs × NodupKeys s.jobs

abbrev pub decoded : Codec → Option String → Option JobManagerState
decoded json none = none
decoded json (some content) = json.decode content

-- The jobs that a peer sends fit their status, and so does the table of a file that is read.
abbrev pub IsFair : Codec → Call → Type 0
IsFair json (sync w jobs) = All (λ job. IsCoherent job.id job) jobs
IsFair json (load readable file) = IsTable (decoded json file)
IsFair json _ = Unit
