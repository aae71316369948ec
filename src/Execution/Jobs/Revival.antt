-- ===== src/Execution/Jobs/Revival.antt =====
-- What becomes of a one-shot run (crates/agent/src/p2p/jobs.rs) that begins after its job is cancelled.
use mathlib.Core.Path.{subst}
use peer_deploy.Prelude.{String, ◌≡◌, ap, ◌∙◌, ◌⊎◌, inl, inr, Bool, true, some, arith}
use peer_deploy.Prelude.Dict.{is_some}
use peer_deploy.Common.Job.{JobSpec, JobInstance, Clock, completed, failed, cancelled}
use peer_deploy.JobManager.State.{JobManager, Codec}
use peer_deploy.JobManager.Operations.{is_active, get_job, cancel_job}
use peer_deploy.JobManager.Cancel.{Cancels, cancel_job_lem}
use peer_deploy.Execution.Site.{Worker, Site}
use peer_deploy.Execution.Jobs.{Help, execute_oneshot_job_with_broadcast}
use peer_deploy.Execution.Jobs.Outcome.{IsEnded, execute_oneshot-IsEnded}

-- The job is cancelled in `m`, and afterwards completed or failed in `m'`.
pub record IsRevived (job_id : String) (m m' : JobManager) : Type 0 where
  pub before : (j : JobInstance) × (get_job job_id m ≡ some j) × (j.status ≡ cancelled)
  pub after :
      (j : JobInstance) × (get_job job_id m' ≡ some j)
      × ((j.status ≡ completed) ⊎ (j.status ≡ failed))

module _ (w : Worker) (help : Help) (job_id : String) (job : JobSpec) (json : Codec)
    (writable : Bool) (now : Clock) where
  cancelled_of :
      (m : JobManager) (j : JobInstance) (r : Bool × JobManager)
      → is_active j.status ≡ true
      → Cancels m job_id (some j) r
      → (k : JobInstance) × (get_job job_id r.1 ≡ some k) × (k.status ≡ cancelled)
  cancelled_of m j r active (inl c) = absurd (ground (arith, active, c.0))
  cancelled_of m j r active (inr c) = let st = c.2.status in (st.0, st.1, st.2)

  after_of :
      (uuid : String) (s s' : Site)
      → IsEnded w job_id help job uuid s s'
      → (j : JobInstance) × (get_job job_id s'.manager ≡ some j)
        × ((j.status ≡ completed) ⊎ (j.status ≡ failed))
  after_of uuid s s' h = elim h.ended [
    | inl c ↦ (c.job, c.listed, inl c.status)
    | inr f ↦ (f.job, f.listed, inr f.status)
  ]

  -- The cancellation of a one-shot job does not last: a job that is pending or running and is cancelled
  -- before its run begins is completed or failed when that run ends other than by a panic. The
  -- theorem is about a run that begins right after the cancellation.
  pub execute_oneshot-IsRevived :
      (uuid : String) (m : JobManager) (j : JobInstance) (s s' : Site)
      → get_job job_id m ≡ some j
      → is_active j.status ≡ true
      → s.manager ≡ (cancel_job json writable now job_id m).1
      → execute_oneshot_job_with_broadcast w help job_id job uuid s ≡ some s'
      → IsRevived job_id s.manager s'.manager
  execute_oneshot-IsRevived uuid m j s s' known active left ran =
      let c = cancelled_of m j (cancel_job json writable now job_id m) active (
        subst (λ o. Cancels m job_id o (cancel_job json writable now job_id m)) known
          (cancel_job_lem json writable now job_id m)) in
      let listed : get_job job_id s.manager ≡ some c.0 = ap (get_job job_id) left ∙ c.1 in
      record {
        before = (c.0, listed, c.2);
        after =
            after_of uuid s s'
              (execute_oneshot-IsEnded w job_id help job uuid s s' (ap is_some listed) ran);
      }
