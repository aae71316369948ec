-- ===== src/JobManager/Listing.antt =====
-- `JobManager::list_jobs` of crates/agent/src/job_manager.rs.
pub mod Order
use Prim.Native.Char.{code}
use peer_deploy.Prelude.{
  ℕ, ◌+◌, ◌-◌, String, Bool, true, false, ◌&&◌, Option, none, some, List, [], ◌∷◌, leb, ◌==◌, take,
  keep, map, if◌then◌else◌,
}
use peer_deploy.Prelude.Dict
use peer_deploy.Common.Job.{JobInstance, JobStatus, pending, running, completed, failed, cancelled}
use peer_deploy.JobManager.State.{JobManager}

-- `to_lowercase`, as far as the match can tell: no character outside ASCII becomes one of the
-- letters of the five words.
unfoldable pub lower : String → List ℕ
lower String.[] = []
lower (String.◌∷◌ c s) =
    (if leb b'A' (code c) && leb (code c) b'Z' then code c + 32 else code c) ∷ lower s

abbrev pub codes : String → List ℕ
codes String.[] = []
codes (String.◌∷◌ c s) = code c ∷ codes s

unfoldable pub codes_eq : List ℕ → List ℕ → Bool
codes_eq [] [] = true
codes_eq (x ∷ xs) (y ∷ ys) = x == y && codes_eq xs ys
codes_eq _ _ = false

unfoldable pub parse_status : String → Option JobStatus
unfolding lower codes_eq
parse_status s =
    let word = lower s in
    if codes_eq word (codes "pending")
    then some pending
    else if codes_eq word (codes "running")
    then some running
    else if codes_eq word (codes "completed")
    then some completed
    else if codes_eq word (codes "failed")
    then some failed
    else if codes_eq word (codes "cancelled")
    then some cancelled
    else none

-- The derived `PartialEq`.
abbrev pub status_eq : JobStatus → JobStatus → Bool
status_eq pending pending = true
status_eq running running = true
status_eq completed completed = true
status_eq failed failed = true
status_eq cancelled cancelled = true
status_eq _ _ = false

-- `sort_by(|a, b| b.key.cmp(&a.key))`: stable, the largest key first.
module _ (key : JobInstance → ℕ) where
  unfoldable pub insert_desc : JobInstance → List JobInstance → List JobInstance
  insert_desc a [] = a ∷ []
  insert_desc a (b ∷ l) =
      let rest = insert_desc a l in if leb (key b) (key a) then a ∷ b ∷ l else b ∷ rest

  unfoldable pub sort_desc : List JobInstance → List JobInstance
  unfolding insert_desc
  sort_desc [] = []
  sort_desc (a ∷ l) = insert_desc a (sort_desc l)

-- `retain` under the filter, if it is one of the five words.
unfoldable pub filter_jobs : Option String → List JobInstance → List JobInstance
filter_jobs none jobs = jobs
filter_jobs (some status_str) jobs = elim (parse_status status_str) [
  | none ↦ jobs
  | some status ↦ keep (λ job. status_eq job.status status) jobs
]

unfoldable pub list_jobs : Option String → ℕ → JobManager → List JobInstance
unfolding filter_jobs sort_desc
list_jobs status_filter limit m =
    take limit
      (sort_desc (λ job. job.submitted_at) (filter_jobs status_filter (Dict.values m.state.jobs)))
