-- ===== src/JobManager/Sync/Merge/Converge.antt =====
-- Repeated and mutual syncs of crates/agent/src/job_manager.rs.
use peer_deploy.Prelude.{
  ℕ, String, ◌≡◌, refl, ap, ◌∙◌, Bool, true, false, Option, some, List, [], ◌∷◌, All, arith, str_eq,
  eq_iff, eq_refl, if◌then◌else◌,
}
use peer_deploy.Prelude.Dict
use peer_deploy.Prelude.Dict.{Dict}
use peer_deploy.Prelude.Entries.{Entries, NodupKeys}
use peer_deploy.Common.Job.{JobInstance}
use peer_deploy.JobManager.State.{JobManager, Codec, state-try_save}
use peer_deploy.JobManager.Sync.{sync_each, sync_jobs}
use peer_deploy.JobManager.Coherence.{IsCoherent, IsValid}
use peer_deploy.JobManager.Sync.Merge.{
  stamp, latest, newest, IsStale, stamp-sync_each, latest_idem, latest_comm, sync_each_stale,
}

-- The list `ks` has a stamp at least that of each job of `js`.
abbrev Covers : List JobInstance → List JobInstance → Type 0
Covers ks js = All (λ job. latest (newest job.id ks) (some job.updated_at) ≡ newest job.id ks) js

latest_twice : (a b : Option ℕ) → latest (latest a b) a ≡ latest a b
latest_twice a b = ground arith

Covers-cons : (job : JobInstance) (ks js : List JobInstance) → Covers ks js → Covers (job ∷ ks) js
unfolding newest
Covers-cons job ks [] h = tt
Covers-cons job ks (j ∷ js) h =
    (covers_if (str_eq job.id j.id) (newest j.id ks) h.0, Covers-cons job ks js h.1)
  where
    covers_if :
        (same : Bool) (n : Option ℕ)
        → latest n (some j.updated_at) ≡ n
        → latest (if same then latest (some job.updated_at) n else n) (some j.updated_at)
          ≡ (if same then latest (some job.updated_at) n else n)
    covers_if true n e = latest_idem (some job.updated_at) n (some j.updated_at) e
    covers_if false n e = e

Covers-refl : (js : List JobInstance) → Covers js js
unfolding newest
Covers-refl [] = tt
Covers-refl (job ∷ js) = (
  rw (eq_refl job.id) (latest_twice (some job.updated_at) (newest job.id js)),
  Covers-cons job js js (Covers-refl js),
)

IsStale-of_Covers :
    (ks js : List JobInstance) (m : JobManager)
    → Covers ks js
    → All (IsStale (sync_each ks m).state.jobs) js
IsStale-of_Covers ks [] m h = tt
IsStale-of_Covers ks (job ∷ js) m h = (
  rw (stamp-sync_each ks m job.id)
      (latest_idem (stamp m.state.jobs job.id) (newest job.id ks) (some job.updated_at) h.0),
  IsStale-of_Covers ks js m h.1,
)

state-sync_jobs :
    (json : Codec) (w : Bool) (js : List JobInstance) (m : JobManager)
    → (sync_jobs json w js m).state ≡ (sync_each js m).state
unfolding sync_jobs
state-sync_jobs json w js m = state-try_save json w (sync_each js m)

-- The stamp of every id after a sync is the latest among the local stamp and those of the jobs in the
-- message with that id, whatever the order of the message; ids that the message lacks keep theirs.
pub stamp-sync_jobs :
    (json : Codec) (w : Bool) (js : List JobInstance) (m : JobManager) (key : String)
    → stamp (sync_jobs json w js m).state.jobs key ≡ latest (stamp m.state.jobs key) (newest key js)
stamp-sync_jobs json w js m key = rw (state-sync_jobs json w js m) (stamp-sync_each js m key)

-- Delivering a sync message twice leaves the same jobs as delivering it once.
pub sync_jobs_idem :
    (json : Codec) (w v : Bool) (js : List JobInstance) (m : JobManager)
    → (sync_jobs json v js (sync_jobs json w js m)).state ≡ (sync_jobs json w js m).state
sync_jobs_idem json w v js m =
    let once = sync_jobs json w js m in
    state-sync_jobs json v js once
    ∙ ap (λ (n : JobManager). n.state)
        (sync_each_stale js once
          (rw (state-sync_jobs json w js m) (IsStale-of_Covers js js m (Covers-refl js))))

newest-values :
    (jobs : Dict JobInstance) (key : String)
    → Entries IsCoherent jobs
    → NodupKeys jobs
    → newest key (Dict.values jobs) ≡ stamp jobs key
unfolding newest Dict.values Dict.get
newest-values [] key h n = refl
newest-values ((k, job) ∷ jobs) key h n =
    rw h.0.0 (ground (arith, newest-values jobs key h.1 n.1, eq_iff k key))

-- Two valid nodes that send each other all their jobs end with the same stamp for every id.
pub sync_jobs_converge :
    (json : Codec) (w v : Bool) (a b : JobManager) (key : String)
    → IsValid a
    → IsValid b
    → stamp (sync_jobs json w (Dict.values b.state.jobs) a).state.jobs key
      ≡ stamp (sync_jobs json v (Dict.values a.state.jobs) b).state.jobs key
sync_jobs_converge json w v a b key va vb =
    stamp-sync_jobs json w (Dict.values b.state.jobs) a key
    ∙ rw
        (
          newest-values b.state.jobs key vb.coherent vb.nodup,
          stamp-sync_jobs json v (Dict.values a.state.jobs) b key,
          newest-values a.state.jobs key va.coherent va.nodup,
        )
        (latest_comm (stamp a.state.jobs key) (stamp b.state.jobs key))
