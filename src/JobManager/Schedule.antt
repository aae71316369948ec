-- ===== src/JobManager/Schedule.antt =====
-- `JobManager::evaluate_schedules` of crates/agent/src/job_manager.rs. The crates cron and chrono are
-- a parameter. Times are in nanoseconds since the epoch.
pub mod Due
use peer_deploy.Prelude.{
  ℕ, suc, ◌+◌, ◌/◌, ◌^◌, ◌≤◌, ◌<◌, String, ◌≡◌, Bool, true, false, ◌&&◌, Option, none, some, List,
  [], ◌∷◌, ltb, leb, if◌then◌else◌,
}
use peer_deploy.Prelude.Dict.{Dict}
use peer_deploy.Common.Job.{JobInstance, JobSpec, JobType, recurring, one_shot, service}
use peer_deploy.JobManager.State.{JobManager, mark_update}

pub record Cron : Type 1 where
  pub Plan : Type 0
  -- `Schedule::from_str`
  pub from_str : String → Option Plan
  -- `schedule.upcoming(Utc).next()`, when the clock reads the number
  pub upcoming : Plan → ℕ → Option ℕ
  -- the iterator starts with the current time, if that matches
  pub not_before : (p : Plan) (t next : ℕ) → upcoming p t ≡ some next → t ≤ next
  -- `DateTime::from_timestamp(ts as i64, 0)`
  pub from_timestamp : ℕ → Option ℕ

-- `now.timestamp() as u64`
abbrev pub seconds : ℕ → ℕ
seconds t = t / 1000000000

module _ (cron : Cron) where
  -- The time of the last run, if the job has one.
  unfoldable pub last_run : ℕ → Option ℕ → Option ℕ
  last_run now none = none
  last_run now (some ts) = elim (cron.from_timestamp ts) [ none ↦ some now | some t ↦ some t ]

  abbrev pub should_run : ℕ → Option ℕ → ℕ → Bool
  should_run now (some last) next_run = ltb last next_run && leb next_run now
  should_run now none next_run = leb next_run now

  -- One recurring job with a schedule: whether it is due. `called` is the reading of the clock in
  -- `upcoming`.
  unfoldable pub is_due : ℕ → ℕ → JobInstance → String → Bool
  unfolding last_run
  is_due now called job expr = elim (cron.from_str expr) [
    | none ↦ false
    | some p ↦ elim (cron.upcoming p called) [
      | none ↦ false
      | some next_run ↦ should_run now (last_run now job.last_scheduled_at) next_run
    ]
  ]

  -- `matches!(&job.spec.job_type, JobType::Recurring)` and the schedule.
  abbrev pub recurring_expr : JobType → Option String → Option String
  recurring_expr recurring schedule = schedule
  recurring_expr one_shot schedule = none
  recurring_expr service schedule = none

  unfoldable pub due_now : ℕ → ℕ → JobInstance → Bool
  unfolding is_due
  due_now now called job = elim (recurring_expr job.spec.job_type job.spec.schedule) [
    | none ↦ false
    | some expr ↦ is_due now called job expr
  ]

  unfoldable pub mark_scheduled : ℕ → JobInstance → JobInstance
  mark_scheduled now job = record job {
    last_scheduled_at = some (seconds now);
    updated_at = seconds now;
  }

  -- The loop over the jobs: the table after it and the specs that are due. `called i` is the reading
  -- of the clock at the i-th job.
  unfoldable pub scan : ℕ → (ℕ → ℕ) → Dict JobInstance → Dict JobInstance × List JobSpec
  unfolding due_now mark_scheduled
  scan now called [] = ([], [])
  scan now called ((k, job) ∷ jobs) =
      let (rest, due) = scan now (λ i. called (suc i)) jobs in
      if due_now now (called 0) job
      then ((k, mark_scheduled now job) ∷ rest, job.spec ∷ due)
      else ((k, job) ∷ rest, due)

  -- `stamp` is the reading in `mark_update`, which is called if something is due.
  unfoldable pub evaluate_schedules : ℕ → (ℕ → ℕ) → ℕ → JobManager → List JobSpec × JobManager
  unfolding scan mark_update
  evaluate_schedules now called stamp m =
      let (jobs, due) = scan now called m.state.jobs in
      let m' = record m { state = record m.state { jobs = jobs } } in
      elim due [ [] ↦ ([], m') | spec ∷ specs ↦ (spec ∷ specs, mark_update stamp m') ]
