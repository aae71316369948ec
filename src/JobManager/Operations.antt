-- ===== src/JobManager/Operations.antt =====
-- The methods of `JobManager` in crates/agent/src/job_manager.rs that change one job. Each holds the
-- lock on the state while it changes the job, so it is one step; `now i` is the reading of the clock
-- at the i-th of its calls in the order of the text. `writable` is for `save_to_disk`.
use peer_deploy.Prelude.{
  ℕ, ◌+◌, ◌^◌, ◌%◌, String, Bool, true, false, Option, none, some, [], ◌∷◌, ◌++◌, if◌then◌else◌,
}
use peer_deploy.Prelude.Dict
use peer_deploy.Prelude.Dict.{Dict}
use peer_deploy.Prelude.Int.{ℤ, format_i32}
use peer_deploy.Prelude.Text.{concat, format_u64}
use peer_deploy.Common.Job
use peer_deploy.Common.Job.{
  JobSpec, JobInstance, JobStatus, JobArtifact, Clock, later, pending, running, completed, failed,
  cancelled,
}
use peer_deploy.JobManager.State.{
  JobManager, RunningJob, cancel_sent, aborted, Codec, mark_update, try_save,
}

abbrev pub u64_mod : ℕ
u64_mod = 2 ^ 64

-- `unwrap_or`
abbrev pub unwrap_or {ℓ} : {A : Type ℓ} → Option A → A → A
unwrap_or none d = d
unwrap_or (some a) d = a

-- `if let Some(job) = state.jobs.get_mut(job_id)` and the change of the job.
unfoldable pub update_job : String → (JobInstance → JobInstance) → JobManager → JobManager
update_job job_id f m = record m {
  state = record m.state { jobs = Dict.modify job_id f m.state.jobs };
}

-- The id of a submitted job, and the counter after it.
unfoldable pub choose_id : String → Option String → ℕ → String × ℕ
choose_id origin (some id) next_id = (id, next_id)
choose_id origin none next_id =
    (concat (origin ∷ "-" ∷ format_u64 next_id ∷ []), (next_id + 1) % u64_mod)

-- The job that `submit_job` inserts.
unfoldable pub submitted : Clock → String → String → JobSpec → JobInstance
submitted now id origin spec =
    Job.add_log (later 2 now) "info" "Job submitted" (Job.new now id origin spec)

unfoldable pub submit_job :
    Codec
    → Bool
    → Clock
    → JobSpec
    → Option String
    → Option String
    → JobManager
    → String × JobManager
unfolding choose_id submitted mark_update
submit_job json writable now spec origin_node_id job_id m =
    let origin = unwrap_or origin_node_id m.node_id in
    let (id, next_id) = choose_id origin job_id m.state.next_id in
    let m' = record m {
      state = record {
        jobs = Dict.insert id (submitted now id origin spec) m.state.jobs;
        next_id = next_id;
      };
    } in
    (id, try_save json writable (mark_update (now 4) m'))

unfoldable pub assigned : Clock → String → JobInstance → JobInstance
assigned now node_id job =
    let logged =
      Job.add_log now "info" (concat ("Job assigned to node " ∷ node_id ∷ []))
        (record job { assigned_node = some node_id }) in
    record logged { updated_at = now 2 }

unfoldable pub assign_job : Codec → Bool → Clock → String → String → JobManager → JobManager
unfolding update_job assigned mark_update
assign_job json writable now job_id node_id m =
    try_save json writable (mark_update (now 3) (update_job job_id (assigned now node_id) m))

unfoldable pub update_job_assignment :
    Codec → Bool → Clock → String → String → JobManager → JobManager
unfolding assign_job
update_job_assignment json writable now job_id node_id m =
    assign_job json writable now job_id node_id m

unfoldable pub started : Clock → JobInstance → JobInstance
started now job =
    Job.add_log (later 2 now) "info" "Job started"
      (Job.start now (unwrap_or job.assigned_node "unknown") job)

unfoldable pub start_job : Codec → Bool → Clock → String → JobManager → JobManager
unfolding update_job started mark_update
start_job json writable now job_id m =
    try_save json writable (mark_update (now 4) (update_job job_id (started now) m))

unfoldable pub finished : Clock → ℤ → JobInstance → JobInstance
finished now exit_code job =
    Job.add_log (later 2 now) "info"
      (concat ("Job completed with exit code " ∷ format_i32 exit_code ∷ []))
      (Job.complete now exit_code job)

unfoldable pub complete_job : Codec → Bool → Clock → String → ℤ → JobManager → JobManager
unfolding update_job finished mark_update
complete_job json writable now job_id exit_code m =
    try_save json writable (mark_update (now 4) (update_job job_id (finished now exit_code) m))

unfoldable pub broken : Clock → String → JobInstance → JobInstance
broken now error job =
    Job.add_log (later 2 now) "error" (concat ("Job failed: " ∷ error ∷ []))
      (Job.fail now error job)

unfoldable pub fail_job : Codec → Bool → Clock → String → String → JobManager → JobManager
unfolding update_job broken mark_update
fail_job json writable now job_id error m =
    try_save json writable (mark_update (now 4) (update_job job_id (broken now error) m))

-- `matches!(job.status, JobStatus::Pending | JobStatus::Running)`
abbrev pub is_active : JobStatus → Bool
is_active pending = true
is_active running = true
is_active _ = false

unfoldable pub dropped : Clock → JobInstance → JobInstance
dropped now job = Job.add_log (later 2 now) "warn" "Job cancelled" (Job.cancel now job)

-- The signal to a running job, whose entry is removed.
unfoldable pub signal_running : String → JobManager → JobManager
signal_running job_id m = elim (Dict.get m.running_jobs job_id) [
  | none ↦ m
  | some r ↦ record m {
    running_jobs = Dict.remove job_id m.running_jobs;
    signals = m.signals ++ cancel_sent r.cancel_tx ∷ aborted r.handle ∷ [];
  }
]

-- The flag is the result. It saves first and marks the update after it.
unfoldable pub cancel_active : Codec → Bool → Clock → String → JobManager → Bool × JobManager
unfolding update_job dropped signal_running mark_update
cancel_active json writable now job_id m = (
  true,
  mark_update (now 4)
      (try_save json writable (signal_running job_id (update_job job_id (dropped now) m))),
)

unfoldable pub cancel_job : Codec → Bool → Clock → String → JobManager → Bool × JobManager
unfolding cancel_active
cancel_job json writable now job_id m = elim (Dict.get m.state.jobs job_id) [
  | none ↦ (false, m)
  | some job ↦ if is_active job.status then cancel_active json writable now job_id m else (false, m)
]

unfoldable pub get_job : String → JobManager → Option JobInstance
get_job job_id m = Dict.get m.state.jobs job_id

unfoldable pub add_job_log : Clock → String → String → String → JobManager → JobManager
unfolding update_job mark_update
add_job_log now job_id level message m =
    mark_update (now 2) (update_job job_id (Job.add_log now level message) m)

unfoldable pub add_job_artifact :
    Codec → Bool → Clock → String → JobArtifact → JobManager → JobManager
unfolding update_job mark_update
add_job_artifact json writable now job_id artifact m = try_save json writable (
    mark_update (now 1) (
      update_job job_id
        (λ job. record job { artifacts = job.artifacts ++ artifact ∷ []; updated_at = now 0 }) m))

unfoldable pub register_running_job : String → RunningJob → JobManager → JobManager
register_running_job job_id r m = record m { running_jobs = Dict.insert job_id r m.running_jobs }

unfoldable pub unregister_running_job : String → JobManager → Option RunningJob × JobManager
unregister_running_job job_id m =
    (Dict.get m.running_jobs job_id, record m { running_jobs = Dict.remove job_id m.running_jobs })
