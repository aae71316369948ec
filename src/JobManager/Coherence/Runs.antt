-- ===== src/JobManager/Coherence/Runs.antt =====
-- The calls of JobManager.Coherence keep the invariant, and so does every sequence of them.
use peer_deploy.Prelude.{
  ℕ, String, ◌≡◌, refl, inl, inr, Bool, Option, List, [], ◌∷◌, All, arith, Bool-cases, Option-cases,
}
use peer_deploy.Prelude.Dict
use peer_deploy.Prelude.Dict.{Dict, is_some}
use peer_deploy.Prelude.Entries.{Entries-insert, NodupKeys-insert}
use peer_deploy.Common.Job
use peer_deploy.Common.Job.{
  JobInstance, JobSpec, JobArtifact, JobStatus, Clock, pending, running, completed, failed,
  cancelled,
}
use peer_deploy.JobManager.State.{JobManager, Codec, mark_update, try_save, state-try_save}
use peer_deploy.JobManager.Operations
use peer_deploy.JobManager.Operations.{
  submitted, assigned, started, finished, broken, dropped, update_job, is_active, unwrap_or,
  choose_id, signal_running,
}
use peer_deploy.JobManager.Sync
use peer_deploy.JobManager.Sync.{merge, newer}
use peer_deploy.JobManager.Schedule
use peer_deploy.JobManager.Schedule.{Cron, scan, mark_scheduled}
use peer_deploy.JobManager.Coherence.{
  IsCoherent, IsValid, Call, submit, assign, start, complete, fail, cancel, log, artifact, register,
  unregister, sync, schedules, load, stage, call, run, IsFair,
}
use peer_deploy.JobManager.Coherence.Files.{load_from_disk-IsValid, stage_artifacts-IsValid}
use peer_deploy.JobManager.Coherence.Steps.{
  IsValid-state, submitted-IsCoherent, started-IsCoherent, finished-IsCoherent, broken-IsCoherent,
  dropped-IsCoherent, assigned-IsCoherent, update_job-IsValid, sync_each-IsValid, scan-IsValid,
}

module _ (json : Codec) (cron : Cron) where
  -- Marking the update and saving keep the invariant.
  saved :
      (w : Bool) (stamp : ℕ) (m : JobManager)
      → IsValid m
      → IsValid (try_save json w (mark_update stamp m))
  unfolding mark_update
  saved w stamp m v =
      IsValid-state (mark_update stamp m) (state-try_save json w (mark_update stamp m))
        (IsValid-state m refl v)

  submit_job-IsValid :
      (w : Bool) (now : Clock) (spec : JobSpec) (origin id : Option String) (m : JobManager)
      → IsValid m
      → IsValid (Operations.submit_job json w now spec origin id m).1
  unfolding Operations.submit_job
  submit_job-IsValid w now spec origin id m v =
      let o = unwrap_or origin m.node_id in
      let chosen = (choose_id o id m.state.next_id).0 in
      let job = submitted now chosen o spec in
      saved w (now 4)
        (record m {
          state = record {
            jobs = Dict.insert chosen job m.state.jobs;
            next_id = (choose_id o id m.state.next_id).1;
          };
        })
        (record {
          coherent =
              Entries-insert IsCoherent chosen job m.state.jobs
                (submitted-IsCoherent now chosen o spec) v.coherent;
          nodup = NodupKeys-insert chosen job m.state.jobs v.nodup;
        })

  signal_running-IsValid :
      (id : String) (m : JobManager) → IsValid m → IsValid (signal_running id m)
  unfolding signal_running
  signal_running-IsValid id m v = elim (Option-cases (Dict.get m.running_jobs id)) [
    | inl idle ↦ rw (idle, signal_running) v
    | inr (r, busy) ↦ rw (busy, signal_running) (IsValid-state m refl v)
  ]

  cancel_job-IsValid :
      (w : Bool) (now : Clock) (id : String) (m : JobManager)
      → IsValid m
      → IsValid (Operations.cancel_job json w now id m).1
  unfolding Operations.cancel_job mark_update
  cancel_job-IsValid w now id m v = elim (Option-cases (Dict.get m.state.jobs id)) [
    | inl missing ↦ rw (missing, Operations.cancel_job) v
    | inr (job, found) ↦
        rw (found, Operations.cancel_job)
          (elim (Bool-cases (is_active job.status)) [
            | inl active ↦ rw active (
                IsValid-state _ (state-try_save json w _) (
                  signal_running-IsValid id _
                    (update_job-IsValid id (dropped now) m (dropped-IsCoherent now id) v)))
            | inr ended ↦ rw ended v
          ])
  ]

  jobs-evaluate_schedules :
      (now : ℕ) (called : ℕ → ℕ) (stamp : ℕ) (m : JobManager)
      → (Schedule.evaluate_schedules cron now called stamp m).1.state.jobs
        ≡ (scan cron now called m.state.jobs).0
  unfolding Schedule.evaluate_schedules mark_update
  jobs-evaluate_schedules now called stamp m = ground arith

  evaluate_schedules-IsValid :
      (now : ℕ) (called : ℕ → ℕ) (stamp : ℕ) (m : JobManager)
      → IsValid m
      → IsValid (Schedule.evaluate_schedules cron now called stamp m).1
  evaluate_schedules-IsValid now called stamp m v =
      let h = scan-IsValid cron now called m.state.jobs v.coherent v.nodup in
      record {
        coherent = rw (jobs-evaluate_schedules now called stamp m) h.0;
        nodup = rw (jobs-evaluate_schedules now called stamp m) h.1;
      }

  call-IsValid :
      (c : Call) (m : JobManager) → IsFair json c → IsValid m → IsValid (call json cron c m)
  unfolding call
  call-IsValid (submit w now spec origin id) m f v = submit_job-IsValid w now spec origin id m v
  call-IsValid (assign w now id n) m f v =
      unfold Operations.assign_job in
      saved w (now 3) _ (update_job-IsValid id (assigned now n) m (assigned-IsCoherent now n id) v)
  call-IsValid (start w now id) m f v =
      unfold Operations.start_job in
      saved w (now 4) _ (update_job-IsValid id (started now) m (started-IsCoherent now id) v)
  call-IsValid (complete w now id code) m f v =
      unfold Operations.complete_job in
      saved w (now 4) _
        (update_job-IsValid id (finished now code) m (finished-IsCoherent now code id) v)
  call-IsValid (fail w now id error) m f v =
      unfold Operations.fail_job in
      saved w (now 4) _
        (update_job-IsValid id (broken now error) m (broken-IsCoherent now error id) v)
  call-IsValid (cancel w now id) m f v = cancel_job-IsValid w now id m v
  call-IsValid (log now id level message) m f v =
      unfold Operations.add_job_log Job.add_log in
      IsValid-state _ refl (update_job-IsValid id (Job.add_log now level message) m (λ job h. h) v)
  call-IsValid (artifact w now id a) m f v =
      unfold Operations.add_job_artifact in
      saved w (now 1) _ (update_job-IsValid id _ m (λ job h. h) v)
  call-IsValid (register id r) m f v =
      unfold Operations.register_running_job in IsValid-state m refl v
  call-IsValid (unregister id) m f v =
      unfold Operations.unregister_running_job in IsValid-state m refl v
  call-IsValid (sync w jobs) m f v =
      unfold Sync.sync_jobs in
      IsValid-state _ (state-try_save json w _) (sync_each-IsValid jobs m f v)
  call-IsValid (schedules now called stamp) m f v = evaluate_schedules-IsValid now called stamp m v
  call-IsValid (load readable file) m f v = load_from_disk-IsValid json readable file m f v
  call-IsValid (stage sha256_hex works root made now marked id artifacts files) m f v =
      stage_artifacts-IsValid sha256_hex works root now id made marked artifacts files m v

  -- From a valid manager, any sequence of calls of the methods that change it leads to a valid manager:
  -- no id is listed twice, every job stands under its own id, a pending job has neither started nor
  -- ended, a running job has a start time and a node, and an ended job has an end time. The jobs that
  -- peers send fit their status, and a file that is read has a table of this kind or does not decode.
  pub run-IsValid :
      (cs : List Call) (m : JobManager)
      → All (IsFair json) cs
      → IsValid m
      → IsValid (run json cron cs m)
  unfolding run
  run-IsValid [] m f v = v
  run-IsValid (c ∷ cs) m f v = run-IsValid cs (call json cron c m) f.1 (call-IsValid c m f.0 v)
