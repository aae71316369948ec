-- ===== src/JobManager/Cancel.antt =====
-- `JobManager::cancel_job` of crates/agent/src/job_manager.rs, on every branch.
use peer_deploy.Prelude.{
  String, ◌≡◌, refl, Bool, true, false, Option, none, some, List, [], ◌∷◌, ◌++◌, arith, str_eq,
  eq_refl, ◌⊎◌, inl, inr, Bool-cases, Option-cases,
}
use mathlib.Core.List.{append-nil}
use peer_deploy.Prelude.Dict
use peer_deploy.Prelude.Dict.{Dict}
use peer_deploy.Common.Job
use peer_deploy.Common.Job.{JobInstance, JobStatus, Clock, cancelled}
use peer_deploy.JobManager.State.{
  JobManager, RunningJob, Signal, cancel_sent, aborted, Codec, mark_update, save_to_disk, try_save,
  state-try_save,
}
use peer_deploy.JobManager.Operations.{
  is_active, dropped, update_job, signal_running, cancel_active, cancel_job, get_job,
}

-- The signals for an entry of the table of running jobs.
abbrev pub signals_for : Option RunningJob → List Signal
signals_for none = []
signals_for (some r) = cancel_sent r.cancel_tx ∷ aborted r.handle ∷ []

-- What a successful cancellation of `job` in `m` leaves.
pub record Cancelled (m : JobManager) (id : String) (job : JobInstance) (m' : JobManager)
    : Type 0 where
  pub status :
      (j : JobInstance) × (get_job id m' ≡ some j) × (j.status ≡ cancelled) × (j.spec ≡ job.spec)
  pub others : (key : String) → str_eq id key ≡ false → get_job key m' ≡ get_job key m
  pub stopped : Dict.get m'.running_jobs id ≡ none
  pub signalled : m'.signals ≡ m.signals ++ signals_for (Dict.get m.running_jobs id)

-- The answer and the manager after a call, by the job that stands under the id.
abbrev pub Cancels : JobManager → String → Option JobInstance → Bool × JobManager → Type 0
Cancels m id none r = r ≡ (false, m)
Cancels m id (some job) r =
    ((is_active job.status ≡ false) × (r ≡ (false, m)))
    ⊎ ((is_active job.status ≡ true) × (r.0 ≡ true) × Cancelled m id job r.1)

module _ (json : Codec) (w : Bool) (now : Clock) (id : String) (m : JobManager) where
  running_jobs-try_save : (n : JobManager) → (try_save json w n).running_jobs ≡ n.running_jobs
  unfolding save_to_disk
  running_jobs-try_save n = ground arith

  signals-try_save : (n : JobManager) → (try_save json w n).signals ≡ n.signals
  unfolding save_to_disk
  signals-try_save n = ground arith

  state-signal_running : (n : JobManager) → (signal_running id n).state ≡ n.state
  unfolding signal_running
  state-signal_running n = ground arith

  stopped_lem : (n : JobManager) → Dict.get (signal_running id n).running_jobs id ≡ none
  unfolding signal_running
  stopped_lem n = ground (arith, Dict.get-remove id id n.running_jobs, eq_refl id)

  signalled_lem :
      (n : JobManager)
      → (signal_running id n).signals ≡ n.signals ++ signals_for (Dict.get n.running_jobs id)
  unfolding signal_running
  signalled_lem n = ground (arith, append-nil n.signals)

  cancel_active-Cancelled :
      (job : JobInstance)
      → get_job id m ≡ some job
      → Cancelled m id job (cancel_active json w now id m).1
  unfolding cancel_active get_job mark_update update_job Job.add_log Job.cancel
  cancel_active-Cancelled job e =
      let n = update_job id (dropped now) m in
      record {
        status = (
          dropped now job,
          rw (
            state-try_save json w (signal_running id n),
            state-signal_running n,
            Dict.get-modify id id (dropped now) m.state.jobs,
            eq_refl id,
            e,
          ),
          refl,
          refl,
        );
        others = λ key ne. rw (
          state-try_save json w (signal_running id n),
          state-signal_running n,
          Dict.get-modify id key (dropped now) m.state.jobs,
          ne,
        );
        stopped = rw (running_jobs-try_save (signal_running id n)) (stopped_lem n);
        signalled = rw (signals-try_save (signal_running id n)) (signalled_lem n);
      }

  -- A call answers `true` exactly for a job that is pending or running. That job is then cancelled with
  -- its spec kept, its running task, if any, is signalled once and forgotten, and no other job changes.
  -- For an unknown job and for one that has ended the call answers `false` and changes nothing.
  pub cancel_job_lem : Cancels m id (get_job id m) (cancel_job json w now id m)
  unfolding cancel_job get_job
  cancel_job_lem = elim (Option-cases (get_job id m)) [
    | inl unknown ↦ rw (unknown, cancel_job, Cancels) refl
    | inr (job, known) ↦ elim (Bool-cases (is_active job.status)) [
      | inl active ↦
          rw (known, cancel_job, active, Cancels)
            (inr (refl, refl, cancel_active-Cancelled job known))
      | inr ended ↦ rw (known, cancel_job, ended, Cancels) (inl (refl, refl))
    ]
  ]
