-- ===== src/JobManager/Schedule/Due.antt =====
-- When `evaluate_schedules` of crates/agent/src/job_manager.rs finds a job due.
use peer_deploy.Prelude.{
  ℕ, suc, ◌<◌, String, ◌≡◌, refl, inl, inr, false, Option, none, some, [], ◌∷◌, arith, Option-cases,
}
use peer_deploy.Prelude.Dict.{Dict}
use peer_deploy.Common.Job.{JobInstance}
use peer_deploy.JobManager.State.{JobManager}
use peer_deploy.JobManager.Schedule.{
  Cron, should_run, is_due, due_now, recurring_expr, scan, evaluate_schedules,
}

module _ (cron : Cron) where
  should_run_past :
      (now : ℕ) (last : Option ℕ) (next : ℕ) → now < next → should_run cron now last next ≡ false
  should_run_past now none next h = ground arith
  should_run_past now (some last) next h = ground arith

  is_due_late :
      (now called : ℕ) (job : JobInstance) (expr : String)
      → now < called
      → is_due cron now called job expr ≡ false
  unfolding is_due
  is_due_late now called job expr h = elim (Option-cases (cron.from_str expr)) [
    | inl bad ↦ rw (bad, is_due)
    | inr (p, e) ↦ elim (Option-cases (cron.upcoming p called)) [
      | inl over ↦ rw (e, over, is_due)
      | inr (next, f) ↦
          rw (e, f, is_due)
            (should_run_past now _ next (omega (arith, cron.not_before p called next f)))
    ]
  ]

  due_now_late :
      (now called : ℕ) (job : JobInstance) → now < called → due_now cron now called job ≡ false
  unfolding due_now
  due_now_late now called job h =
      elim (Option-cases (recurring_expr cron job.spec.job_type job.spec.schedule)) [
        | inl not_recurring ↦ rw (not_recurring, due_now)
        | inr (expr, e) ↦ rw (e, due_now) (is_due_late now called job expr h)
      ]

  scan_late :
      (now : ℕ) (called : ℕ → ℕ) (jobs : Dict JobInstance)
      → ((i : ℕ) → now < called i)
      → scan cron now called jobs ≡ (jobs, [])
  unfolding scan
  scan_late now called [] h = refl
  scan_late now called ((k, job) ∷ jobs) h = rw (
    scan_late now (λ i. called (suc i)) jobs (λ i. h (suc i)),
    due_now_late now (called 0) job (h 0),
  )

  -- Where the clock has moved on between `Utc::now()` and the calls of `upcoming`, no recurring job is
  -- ever due, whatever its schedule and its last run, and the manager does not change: `upcoming`
  -- lists only times from its own call on.
  pub evaluate_schedules_never_due :
      (now : ℕ) (called : ℕ → ℕ) (stamp : ℕ) (m : JobManager)
      → ((i : ℕ) → now < called i)
      → evaluate_schedules cron now called stamp m ≡ ([], m)
  unfolding evaluate_schedules
  evaluate_schedules_never_due now called stamp m h =
      ground (arith, scan_late now called m.state.jobs h)
