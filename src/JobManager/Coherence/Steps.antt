-- ===== src/JobManager/Coherence/Steps.antt =====
-- The changes of one job keep the invariant.
use peer_deploy.Prelude.{
  ℕ, suc, String, ◌≡◌, refl, ap, inl, inr, Option, none, some, List, [], ◌∷◌, All, arith, ltb,
  Bool-cases, Option-cases,
}
use peer_deploy.Prelude.Dict
use peer_deploy.Prelude.Dict.{Dict, is_some}
use peer_deploy.Prelude.Entries.{
  Entries, NodupKeys, Entries-insert, Entries-modify, NodupKeys-insert, NodupKeys-modify,
}
use peer_deploy.Prelude.Int.{ℤ}
use peer_deploy.Common.Job
use peer_deploy.Common.Job.{
  JobInstance, JobSpec, JobArtifact, JobStatus, Clock, pending, running, completed, failed,
  cancelled,
}
use peer_deploy.JobManager.State.{JobManager, JobManagerState}
use peer_deploy.JobManager.Operations.{
  submitted, assigned, started, finished, broken, dropped, update_job,
}
use peer_deploy.JobManager.Sync
use peer_deploy.JobManager.Sync.{merge, newer}
use peer_deploy.JobManager.Schedule.{Cron, scan}
use peer_deploy.JobManager.Coherence.{IsCoherent, IsValid, StatusFits}

pub IsValid-state : (m : JobManager) {m' : JobManager} → m'.state ≡ m.state → IsValid m → IsValid m'
IsValid-state m e v = record {
  coherent = rw (ap (λ (s : JobManagerState). s.jobs) e) v.coherent;
  nodup = rw (ap (λ (s : JobManagerState). s.jobs) e) v.nodup;
}

-- The changes of one job.
pub submitted-IsCoherent :
    (now : Clock) (id origin : String) (spec : JobSpec)
    → IsCoherent id (submitted now id origin spec)
unfolding submitted Job.add_log Job.new
submitted-IsCoherent now id origin spec = (refl, (refl, refl, refl))

pub started-IsCoherent :
    (now : Clock) (key : String) (job : JobInstance)
    → IsCoherent key job
    → IsCoherent key (started now job)
unfolding started Job.add_log Job.start
started-IsCoherent now key job h = (h.0, (refl, refl))

pub finished-IsCoherent :
    (now : Clock) (code : ℤ) (key : String) (job : JobInstance)
    → IsCoherent key job
    → IsCoherent key (finished now code job)
unfolding finished Job.add_log Job.complete
finished-IsCoherent now code key job h = ground arith

pub broken-IsCoherent :
    (now : Clock) (error key : String) (job : JobInstance)
    → IsCoherent key job
    → IsCoherent key (broken now error job)
unfolding broken Job.add_log Job.fail
broken-IsCoherent now error key job h = (h.0, refl)

pub dropped-IsCoherent :
    (now : Clock) (key : String) (job : JobInstance)
    → IsCoherent key job
    → IsCoherent key (dropped now job)
unfolding dropped Job.add_log Job.cancel
dropped-IsCoherent now key job h = (h.0, refl)

StatusFits-assigned :
    (s : JobStatus) (a b : Option ℕ) (c : Option ℤ) (n : Option String) (node : String)
    → StatusFits s a b c n
    → StatusFits s a b c (some node)
StatusFits-assigned pending a b c n node h = h
StatusFits-assigned running a b c n node h = (h.0, refl)
StatusFits-assigned _ a b c n node h = h

pub assigned-IsCoherent :
    (now : Clock) (node key : String) (job : JobInstance)
    → IsCoherent key job
    → IsCoherent key (assigned now node job)
unfolding assigned Job.add_log
assigned-IsCoherent now node key job h = (h.0, StatusFits-assigned job.status _ _ _ _ node h.1)

-- A change of one job that keeps coherence keeps the invariant.
pub update_job-IsValid :
    (id : String) (f : JobInstance → JobInstance) (m : JobManager)
    → ((job : JobInstance) → IsCoherent id job → IsCoherent id (f job))
    → IsValid m
    → IsValid (update_job id f m)
unfolding update_job
update_job-IsValid id f m keep v = record {
  coherent = Entries-modify IsCoherent id f m.state.jobs keep v.coherent;
  nodup = NodupKeys-modify id f m.state.jobs v.nodup;
}

newer-IsCoherent :
    (job local : JobInstance)
    → IsCoherent job.id job
    → IsCoherent job.id local
    → IsCoherent job.id (newer job local)
newer-IsCoherent job local hj h = elim (Bool-cases (ltb local.updated_at job.updated_at)) [
  | inl new ↦ rw new hj
  | inr old ↦ rw old h
]

merge_new :
    (job : JobInstance) (jobs : Dict JobInstance)
    → Dict.get jobs job.id ≡ none
    → merge job jobs ≡ Dict.insert job.id job jobs
unfolding merge
merge_new job jobs e = rw (e, merge)

merge_known :
    (job local : JobInstance) (jobs : Dict JobInstance)
    → Dict.get jobs job.id ≡ some local
    → merge job jobs ≡ Dict.modify job.id (newer job) jobs
unfolding merge
merge_known job local jobs e = rw (e, merge)

merge-IsValid :
    (job : JobInstance) (jobs : Dict JobInstance)
    → IsCoherent job.id job
    → Entries IsCoherent jobs × NodupKeys jobs
    → Entries IsCoherent (merge job jobs) × NodupKeys (merge job jobs)
merge-IsValid job jobs hj h = elim (Option-cases (Dict.get jobs job.id)) [
  | inl new ↦
      rw (merge_new job jobs new)
        (Entries-insert IsCoherent job.id job jobs hj h.0, NodupKeys-insert job.id job jobs h.1)
  | inr (local, old) ↦ rw (merge_known job local jobs old) (
    Entries-modify IsCoherent job.id (newer job) jobs (λ l hl. newer-IsCoherent job l hj hl) h.0,
    NodupKeys-modify job.id (newer job) jobs h.1,
  )
]

pub sync_each-IsValid :
    (jobs : List JobInstance) (m : JobManager)
    → All (λ job. IsCoherent job.id job) jobs
    → IsValid m
    → IsValid (Sync.sync_each jobs m)
unfolding Sync.sync_each
sync_each-IsValid [] m hj v = v
sync_each-IsValid (job ∷ jobs) m hj v =
    let h = merge-IsValid job m.state.jobs hj.0 (v.coherent, v.nodup) in
    sync_each-IsValid jobs _ hj.1 (record { coherent = h.0; nodup = h.1 })

module _ (cron : Cron) where
  get-scan-none :
      (now : ℕ) (called : ℕ → ℕ) (key : String) (jobs : Dict JobInstance)
      → Dict.get jobs key ≡ none
      → Dict.get (scan cron now called jobs).0 key ≡ none
  unfolding scan Dict.get
  get-scan-none now called key [] h = refl
  get-scan-none now called key ((k, job) ∷ jobs) h =
      ground (arith, get-scan-none now (λ i. called (suc i)) key jobs)

  pub scan-IsValid :
      (now : ℕ) (called : ℕ → ℕ) (jobs : Dict JobInstance)
      → Entries IsCoherent jobs
      → NodupKeys jobs
      → Entries IsCoherent (scan cron now called jobs).0 × NodupKeys (scan cron now called jobs).0
  unfolding scan
  scan-IsValid now called [] h n = (tt, tt)
  scan-IsValid now called ((k, job) ∷ jobs) h n = ground (
    arith,
    scan-IsValid now (λ i. called (suc i)) jobs h.1 n.1,
    get-scan-none now (λ i. called (suc i)) k jobs n.0,
  )
