-- ===== src/JobManager/Sync/Merge.antt =====
-- What `sync_jobs` of crates/agent/src/job_manager.rs makes of the stamps `updated_at`.
pub mod Converge
use Prim.Native.Nat.{max}
use peer_deploy.Prelude.{
  ℕ, ◌≤◌, ◌<◌, String, ◌≡◌, refl, ap, sym, ◌∙◌, inl, inr, Bool, true, false, Option, none, some,
  List, [], ◌∷◌, All, arith, ltb, str_eq, eq_iff, eq_refl, Bool-cases, Option-cases, if◌then◌else◌,
}
use peer_deploy.Prelude.Dict
use peer_deploy.Prelude.Dict.{Dict, map_some}
use peer_deploy.Common.Job.{JobInstance}
use peer_deploy.JobManager.State.{JobManager, Codec}
use peer_deploy.JobManager.Sync.{newer, merge, sync_job, sync_each, sync_jobs}

-- The stamp of a job that may be missing.
abbrev pub stamp_of : Option JobInstance → Option ℕ
stamp_of none = none
stamp_of (some job) = some job.updated_at

abbrev pub stamp : Dict JobInstance → String → Option ℕ
stamp jobs key = stamp_of (Dict.get jobs key)

-- The later of two stamps.
abbrev pub latest : Option ℕ → Option ℕ → Option ℕ
latest none b = b
latest (some a) none = some a
latest (some a) (some b) = some (max a b)

-- The latest stamp that a list has for an id.
unfoldable pub newest : String → List JobInstance → Option ℕ
newest key [] = none
newest key (job ∷ jobs) =
    let rest = newest key jobs in
    if str_eq job.id key then latest (some job.updated_at) rest else rest

-- The table after one job.
abbrev pub winner : JobInstance → Option JobInstance → JobInstance
winner job none = job
winner job (some local) = newer job local

pub get-merge :
    (job : JobInstance) (jobs : Dict JobInstance) (key : String)
    → Dict.get (merge job jobs) key
      ≡ (if str_eq job.id key then some (winner job (Dict.get jobs key)) else Dict.get jobs key)
unfolding merge
get-merge job jobs key = ground (
  arith,
  Dict.get-insert job.id key job jobs,
  Dict.get-modify job.id key (newer job) jobs,
  eq_iff job.id key,
  eq_refl job.id,
)

stamp-merge :
    (job : JobInstance) (jobs : Dict JobInstance) (key : String)
    → stamp (merge job jobs) key ≡ (
        if str_eq job.id key then latest (stamp jobs key) (some job.updated_at) else stamp jobs key)
stamp-merge job jobs key = ground (arith, get-merge job jobs key)

pub latest_assoc : (a b c : Option ℕ) → latest (latest a b) c ≡ latest a (latest b c)
latest_assoc a b c = ground arith

pub latest-none : (a : Option ℕ) → latest a none ≡ a
latest-none a = ground arith

pub latest_comm : (a b : Option ℕ) → latest a b ≡ latest b a
latest_comm a b = ground arith

latest_step :
    (same : Bool) (s j n : Option ℕ)
    → latest (if same then latest s j else s) n ≡ latest s (if same then latest j n else n)
latest_step true s j n = latest_assoc s j n
latest_step false s j n = refl

-- The stamp of an id after a sync is the latest of the local one and those in the list.
pub stamp-sync_each :
    (js : List JobInstance) (m : JobManager) (key : String)
    → stamp (sync_each js m).state.jobs key ≡ latest (stamp m.state.jobs key) (newest key js)
unfolding sync_each newest
stamp-sync_each [] m key = sym (latest-none _)
stamp-sync_each (job ∷ js) m key =
    stamp-sync_each js (sync_job job m) key
    ∙ unfold sync_job in
      ap (λ s. latest s (newest key js)) (stamp-merge job m.state.jobs key)
      ∙ latest_step (str_eq job.id key) (stamp m.state.jobs key) (some job.updated_at)
          (newest key js)

-- A job that is no newer than the local one changes nothing.
modify_same :
    (key : String) (f : JobInstance → JobInstance) (jobs : Dict JobInstance) (local : JobInstance)
    → Dict.get jobs key ≡ some local
    → f local ≡ local
    → Dict.modify key f jobs ≡ jobs
unfolding Dict.modify Dict.get
modify_same key f [] local e h = refl
modify_same key f ((j, job) ∷ jobs) local e h = ground (arith, modify_same key f jobs local)

merge_stale :
    (job local : JobInstance) (jobs : Dict JobInstance)
    → Dict.get jobs job.id ≡ some local
    → job.updated_at ≤ local.updated_at
    → merge job jobs ≡ jobs
unfolding merge
merge_stale job local jobs e h =
    rw (e, merge) (modify_same job.id (newer job) jobs local e (ground arith))

-- Every job of the list is known with a stamp that is at least its own.
abbrev pub IsStale : Dict JobInstance → JobInstance → Type 0
IsStale jobs job = latest (stamp jobs job.id) (some job.updated_at) ≡ stamp jobs job.id

merge-IsStale :
    (job : JobInstance) (jobs : Dict JobInstance) → IsStale jobs job → merge job jobs ≡ jobs
merge-IsStale job jobs h = elim (Option-cases (Dict.get jobs job.id)) [
  | inl new ↦ absurd (ground arith)
  | inr (local, known) ↦ merge_stale job local jobs known (ground arith)
]

sync_each_stale :
    (js : List JobInstance) (m : JobManager) → All (IsStale m.state.jobs) js → sync_each js m ≡ m
unfolding sync_each sync_job
sync_each_stale [] m h = refl
sync_each_stale (job ∷ js) m h = rw (merge-IsStale job m.state.jobs h.0) (sync_each_stale js m h.1)

latest_idem : (a b c : Option ℕ) → latest b c ≡ b → latest (latest a b) c ≡ latest a b
latest_idem a b c h = ground arith
