-- ===== src/JobManager/Listing/Order.antt =====
-- What `list_jobs` of crates/agent/src/job_manager.rs returns.
use Prim.Native.Nat.{min}
use mathlib.Core.List.{Perm}
use mathlib.Core.List.Perm
use peer_deploy.Prelude.{
  ℕ, zero, suc, ◌≤◌, String, ◌≡◌, refl, inl, inr, Bool, true, Option, some, List, [], ◌∷◌, ◌++◌,
  All, arith, leb, length, take, drop, keep, length-take, take-append-drop, Bool-cases,
}
use peer_deploy.Prelude.Dict
use peer_deploy.Common.Job.{JobInstance, JobStatus}
use peer_deploy.JobManager.State.{JobManager}
use peer_deploy.JobManager.Listing.{
  status_eq, parse_status, insert_desc, sort_desc, filter_jobs, list_jobs,
}

module _ (key : JobInstance → ℕ) where
  -- The largest key first.
  abbrev pub IsSortedDesc : List JobInstance → Type 0
  IsSortedDesc [] = Unit
  IsSortedDesc (a ∷ l) = All (λ b. key b ≤ key a) l × IsSortedDesc l

  All-insert_desc :
      (P : JobInstance → Type 0) (a : JobInstance) (l : List JobInstance)
      → P a
      → All P l
      → All P (insert_desc key a l)
  unfolding insert_desc
  All-insert_desc P a [] h hl = (h, tt)
  All-insert_desc P a (b ∷ l) h hl = ground (arith, All-insert_desc P a l h hl.1)

  All-raise :
      (m n : ℕ) (l : List JobInstance) → m ≤ n → All (λ b. key b ≤ m) l → All (λ b. key b ≤ n) l
  All-raise m n [] h hl = tt
  All-raise m n (b ∷ l) h hl = (omega (arith, hl.0), All-raise m n l h hl.1)

  insert_desc-IsSortedDesc :
      (a : JobInstance) (l : List JobInstance) → IsSortedDesc l → IsSortedDesc (insert_desc key a l)
  unfolding insert_desc
  insert_desc-IsSortedDesc a [] h = (tt, tt)
  insert_desc-IsSortedDesc a (b ∷ l) h = elim (Bool-cases (leb (key b) (key a))) [
    | inl le ↦ rw (le) ((ground arith, All-raise (key b) (key a) l (ground arith) h.0), h)
    | inr gt ↦ rw (gt) (
      All-insert_desc (λ c. key c ≤ key b) a l (ground arith) h.0,
      insert_desc-IsSortedDesc a l h.1,
    )
  ]

  sort_desc-IsSortedDesc : (l : List JobInstance) → IsSortedDesc (sort_desc key l)
  unfolding sort_desc
  sort_desc-IsSortedDesc [] = tt
  sort_desc-IsSortedDesc (a ∷ l) =
      insert_desc-IsSortedDesc a (sort_desc key l) (sort_desc-IsSortedDesc l)

  insert_desc-perm : (a : JobInstance) (l : List JobInstance) → Perm (insert_desc key a l) (a ∷ l)
  unfolding insert_desc
  insert_desc-perm a [] = Perm.refl (a ∷ [])
  insert_desc-perm a (b ∷ l) = elim (Bool-cases (leb (key b) (key a))) [
    | inl le ↦ rw (le) (Perm.refl (a ∷ b ∷ l))
    | inr gt ↦ rw (gt) (Perm.trans (Perm.cons b (insert_desc-perm a l)) (Perm.swap a b l))
  ]

  sort_desc-perm : (l : List JobInstance) → Perm (sort_desc key l) l
  unfolding sort_desc
  sort_desc-perm [] = Perm.refl []
  sort_desc-perm (a ∷ l) =
      Perm.trans (insert_desc-perm a (sort_desc key l)) (Perm.cons a (sort_desc-perm l))

  -- The first `n` of a sorted list are sorted, and the rest come after them.
  abbrev pub Before : List JobInstance → List JobInstance → Type 0
  Before xs ys = All (λ a. All (λ b. key b ≤ key a) ys) xs

  All-take {κ} :
      (P : JobInstance → Type κ) (n : ℕ) (l : List JobInstance) → All P l → All P (take n l)
  All-take P zero l h = tt
  All-take P (suc n) [] h = tt
  All-take P (suc n) (a ∷ l) h = (h.0, All-take P n l h.1)

  All-drop {κ} :
      (P : JobInstance → Type κ) (n : ℕ) (l : List JobInstance) → All P l → All P (drop n l)
  All-drop P zero l h = h
  All-drop P (suc n) [] h = tt
  All-drop P (suc n) (a ∷ l) h = All-drop P n l h.1

  take-IsSortedDesc :
      (n : ℕ) (l : List JobInstance)
      → IsSortedDesc l
      → IsSortedDesc (take n l) × Before (take n l) (drop n l)
  take-IsSortedDesc zero l h = (tt, tt)
  take-IsSortedDesc (suc n) [] h = (tt, tt)
  take-IsSortedDesc (suc n) (a ∷ l) h =
      let ih = take-IsSortedDesc n l h.1 in ((All-take _ n l h.0, ih.0), (All-drop _ n l h.0, ih.1))

  All-sort_desc :
      (P : JobInstance → Type 0) (l : List JobInstance) → All P l → All P (sort_desc key l)
  unfolding sort_desc
  All-sort_desc P [] h = tt
  All-sort_desc P (a ∷ l) h = All-insert_desc P a (sort_desc key l) h.0 (All-sort_desc P l h.1)

  length-insert_desc :
      (a : JobInstance) (l : List JobInstance) → length (insert_desc key a l) ≡ suc (length l)
  unfolding insert_desc
  length-insert_desc a [] = refl
  length-insert_desc a (b ∷ l) = ground (arith, length-insert_desc a l)

  length-sort_desc : (l : List JobInstance) → length (sort_desc key l) ≡ length l
  unfolding sort_desc
  length-sort_desc [] = refl
  length-sort_desc (a ∷ l) =
      omega (arith, length-insert_desc a (sort_desc key l), length-sort_desc l)

abbrev pub submitted_at : JobInstance → ℕ
submitted_at job = job.submitted_at

-- The answer `answer` to a query for at most `limit` of the jobs `matching`.
pub record Listed (matching : List JobInstance) (limit : ℕ) (answer : List JobInstance)
    : Type 0 where
  pub newest_first : IsSortedDesc submitted_at answer
  pub size : length answer ≡ min limit (length matching)
  pub omitted : List JobInstance
  pub all_there : Perm (answer ++ omitted) matching
  pub omitted_older : Before submitted_at answer omitted

-- A query lists the newest of the jobs that pass the filter, at most `limit` of them and as many as
-- there are up to that, the latest submission first; every job that it leaves out was submitted no
-- later than every job that it lists.
pub list_jobs-Listed :
    (status_filter : Option String) (limit : ℕ) (m : JobManager)
    → Listed
        (filter_jobs status_filter (Dict.values m.state.jobs))
        limit
        (list_jobs status_filter limit m)
unfolding list_jobs
list_jobs-Listed status_filter limit m =
    let matching = filter_jobs status_filter (Dict.values m.state.jobs) in
    let sorted = sort_desc submitted_at matching in
    let taken =
      take-IsSortedDesc submitted_at limit sorted (sort_desc-IsSortedDesc submitted_at matching) in
    record {
      newest_first = taken.0;
      size = omega (arith, length-take limit sorted, length-sort_desc submitted_at matching);
      omitted = drop limit sorted;
      all_there = rw (take-append-drop limit sorted) (sort_desc-perm submitted_at matching);
      omitted_older = taken.1;
    }

keep-All : (p : JobInstance → Bool) (l : List JobInstance) → All (λ job. p job ≡ true) (keep p l)
keep-All p [] = tt
keep-All p (a ∷ l) = ground (arith, keep-All p l)

-- Under a filter that names a status, in any letter case, every listed job has that status.
pub list_jobs_status :
    (word : String) (status : JobStatus) (limit : ℕ) (m : JobManager)
    → parse_status word ≡ some status
    → All (λ job. status_eq job.status status ≡ true) (list_jobs (some word) limit m)
unfolding list_jobs
list_jobs_status word status limit m h =
    let Fits = λ (job : JobInstance). status_eq job.status status ≡ true in
    let matching = filter_jobs (some word) (Dict.values m.state.jobs) in
    All-take submitted_at Fits limit (sort_desc submitted_at matching) (
      All-sort_desc submitted_at Fits matching (
        rw (h, filter_jobs)
          (keep-All (λ job. status_eq job.status status) (Dict.values m.state.jobs))))
