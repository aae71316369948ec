-- ===== src/P2p/Sync/Erasure.antt =====
-- What the messages of the tick do to the jobs of another node (crates/agent/src/p2p/mod.rs, crates/agent/src/job_manager.rs).
use peer_deploy.Prelude.{
  ℕ, ◌<◌, String, ◌≡◌, refl, sym, ap, ◌∙◌, ◌⊎◌, inl, inr, Bool, true, false, Option, none, some,
  List, [], ◌∷◌, All, All-append, arith, map, ltb, str_eq, Bool-cases, if◌then◌else◌,
}
use mathlib.Core.Path.{subst}
use peer_deploy.Prelude.Dict
use peer_deploy.Prelude.Dict.{Dict}
use peer_deploy.Common.Job.{JobInstance}
use peer_deploy.JobManager.State.{JobManager, JobManagerState, Codec, state-try_save}
use peer_deploy.JobManager.Sync.{sync_job, sync_each, sync_jobs}
use peer_deploy.JobManager.Sync.Merge.{
  stamp_of, stamp, latest, newest, latest_assoc, latest-none, winner, get-merge, stamp-sync_each,
}
use peer_deploy.P2p.Sync.Quiet.{job_sync_tick_lem}
use peer_deploy.P2p.Sync.{
  SyncNode, Hashed, hashed, same_hash, cleared, latest_jobs, trimmed, broadcast, adjust_pace,
  job_sync_tick, deliver_jobs,
}

abbrev pub IsCleared : JobInstance → Type 0
IsCleared job = (job.logs ≡ []) × (job.artifacts ≡ [])

-- A job that was not known, or was known with an earlier stamp.
abbrev pub IsNews : Option JobInstance → JobInstance → Type 0
IsNews none job = Unit
IsNews (some local) job = local.updated_at < job.updated_at

-- A job that is news to the later table is news to the earlier one.
before_winner :
    (sent job : JobInstance) (before : Option JobInstance)
    → IsNews (some (winner sent before)) job
    → IsNews before job
before_winner sent job none h = tt
before_winner sent job (some local) h = at_most (ltb local.updated_at sent.updated_at) refl h
  where
    at_most :
        (b : Bool)
        → ltb local.updated_at sent.updated_at ≡ b
        → (if b then sent else local).updated_at < job.updated_at
        → local.updated_at < job.updated_at
    at_most true later k = ground arith
    at_most false earlier k = k

module _ (P : JobInstance → Type 0) where
  -- How a job came into the table.
  abbrev Origin : Option JobInstance → JobInstance → Type 0
  Origin before job = (before ≡ some job) ⊎ (P job × IsNews before job)

  winner-Origin :
      (sent job : JobInstance) (before : Option JobInstance)
      → P sent
      → winner sent before ≡ job
      → Origin before job
  winner-Origin sent job none h e = inr (subst P e h, tt)
  winner-Origin sent job (some local) h e =
      elim (Bool-cases (ltb local.updated_at sent.updated_at)) [
        | inl later ↦
            let same = ap (λ b. if b then sent else local) (sym later) ∙ e in
            inr (subst P same h, ground (arith, later, ap (λ (j : JobInstance). j.updated_at) same))
        | inr earlier ↦ inl (ap some (ap (λ b. if b then sent else local) (sym earlier) ∙ e))
      ]

  Origin-winner :
      (sent job : JobInstance) (before : Option JobInstance)
      → P sent
      → Origin (some (winner sent before)) job
      → Origin before job
  Origin-winner sent job before h (inl same) =
      winner-Origin sent job before h (ground (arith, same))
  Origin-winner sent job before h (inr (p, news)) = inr (p, before_winner sent job before news)

  -- Whether the sent job has the id or not.
  merged_Origin :
      (same : Bool) (sent job : JobInstance) (before : Option JobInstance)
      → P sent
      → Origin (if same then some (winner sent before) else before) job
      → Origin before job
  merged_Origin true sent job before h o = Origin-winner sent job before h o
  merged_Origin false sent job before h o = o

  sync_each-Origin :
      (sent : List JobInstance) (job : JobInstance) (m : JobManager) (key : String)
      → All P sent
      → Origin (Dict.get (sync_each sent m).state.jobs key) job
      → Origin (Dict.get m.state.jobs key) job
  unfolding sync_each sync_job
  sync_each-Origin [] job m key h o = o
  sync_each-Origin (first ∷ sent) job m key h o =
      merged_Origin (str_eq first.id key) first job (Dict.get m.state.jobs key) h.0 (
        subst (λ r. Origin r job) (get-merge first m.state.jobs key)
          (sync_each-Origin sent job (sync_job first m) key h.1 o))

  deliver_jobs-Origin :
      (json : Codec) (writable : Bool) (messages : List (List JobInstance)) (job : JobInstance)
      (m : JobManager) (key : String)
      → All (All P) messages
      → Origin (Dict.get (deliver_jobs json writable messages m).state.jobs key) job
      → Origin (Dict.get m.state.jobs key) job
  unfolding deliver_jobs sync_jobs
  deliver_jobs-Origin json writable [] job m key h o = o
  deliver_jobs-Origin json writable (sent ∷ messages) job m key h o =
      sync_each-Origin sent job m key h.0 (
        subst (λ (s : JobManagerState). Origin (Dict.get s.jobs key) job)
          (state-try_save json writable (sync_each sent m))
          (deliver_jobs-Origin json writable messages job (sync_jobs json writable sent m) key h.1
            o))

-- The latest stamp that the messages have for an id.
unfoldable pub newest_sent : String → List (List JobInstance) → Option ℕ
newest_sent key [] = none
newest_sent key (sent ∷ messages) = latest (newest key sent) (newest_sent key messages)

-- There is a second stamp, and the first is missing or earlier.
unfoldable pub later : Option ℕ → Option ℕ → Bool
later before none = false
later none (some stamp) = true
later (some before) (some stamp) = ltb before stamp

stamp-sync_jobs :
    (json : Codec) (writable : Bool) (sent : List JobInstance) (m : JobManager) (key : String)
    → stamp (sync_jobs json writable sent m).state.jobs key
      ≡ latest (stamp m.state.jobs key) (newest key sent)
unfolding sync_jobs
stamp-sync_jobs json writable sent m key =
    ap (λ (s : JobManagerState). stamp s.jobs key) (state-try_save json writable (sync_each sent m))
    ∙ stamp-sync_each sent m key

stamp-deliver_jobs :
    (json : Codec) (writable : Bool) (messages : List (List JobInstance)) (m : JobManager)
    (key : String)
    → stamp (deliver_jobs json writable messages m).state.jobs key
      ≡ latest (stamp m.state.jobs key) (newest_sent key messages)
unfolding deliver_jobs newest_sent
stamp-deliver_jobs json writable [] m key = sym (latest-none _)
stamp-deliver_jobs json writable (sent ∷ messages) m key =
    stamp-deliver_jobs json writable messages (sync_jobs json writable sent m) key
    ∙ ap (λ s. latest s (newest_sent key messages)) (stamp-sync_jobs json writable sent m key)
    ∙ latest_assoc (stamp m.state.jobs key) (newest key sent) (newest_sent key messages)

-- The entry is a job with this stamp, without logs and artifacts.
pub record IsReplaced (sent : Option ℕ) (after : Option JobInstance) : Type 0 where
  pub job : JobInstance
  pub known : after ≡ some job
  pub cleared : IsCleared job
  pub stamped : some job.updated_at ≡ sent

erased_by :
    (key : String) (before after : Option JobInstance) (sent : Option ℕ)
    → stamp_of after ≡ latest (stamp_of before) sent
    → ((job : JobInstance) → after ≡ some job → Origin IsCleared before job)
    → ((later (stamp_of before) sent ≡ false) × (after ≡ before))
      ⊎ ((later (stamp_of before) sent ≡ true) × IsReplaced sent after)
unfolding later
erased_by key none none none e h = inl (refl, refl)
erased_by key none none (some s) e h = absurd (ground (arith, e))
erased_by key (some b) none none e h = absurd (ground (arith, e))
erased_by key (some b) none (some s) e h = absurd (ground (arith, e))
erased_by key none (some a) none e h = absurd (ground (arith, e))
erased_by key none (some a) (some s) e h = elim (h a refl) [
  | inl same ↦ absurd (ground (arith, same))
  | inr (gone, news) ↦ inr (refl, record { job = a; known = refl; cleared = gone; stamped = e })
]
erased_by key (some b) (some a) none e h = elim (h a refl) [
  | inl same ↦ inl (refl, sym same)
  | inr (gone, news) ↦ absurd (ground (arith, e, news))
]
erased_by key (some b) (some a) (some s) e h = elim (Bool-cases (ltb b.updated_at s)) [
  | inl late ↦ elim (h a refl) [
    | inl same ↦ absurd (ground (arith, e, late, ap stamp_of same))
    | inr (gone, news) ↦
        inr (
          late,
          record { job = a; known = refl; cleared = gone; stamped = ground (arith, e, late) },
        )
  ]
  | inr early ↦ elim (h a refl) [
    | inl same ↦ inl (early, sym same)
    | inr (gone, news) ↦ absurd (ground (arith, e, early, news))
  ]
]

All-cleared : (jobs : List JobInstance) → All IsCleared (map cleared jobs)
All-cleared [] = tt
All-cleared (job ∷ jobs) = ((refl, refl), All-cleared jobs)

All-trimmed : (m : JobManager) → All IsCleared (trimmed m)
unfolding trimmed
All-trimmed m = All-cleared (latest_jobs 10 m)

module _ (hash : List Hashed → ℕ) where
  broadcast-published :
      (jobs : List JobInstance) (n : SyncNode)
      → All IsCleared jobs
      → All (All IsCleared) n.published
      → All (All IsCleared) (broadcast hash jobs n).published
  unfolding broadcast
  broadcast-published [] n h all = all
  broadcast-published (job ∷ jobs) n h all =
      elim (Bool-cases (same_hash n.last_job_state_hash (hash (map hashed (job ∷ jobs))))) [
        | inl same ↦ rw (same, broadcast) all
        | inr fresh ↦
            rw (fresh, broadcast)
              (All-append (All IsCleared) n.published ((job ∷ jobs) ∷ []) all (h, tt))
      ]

  adjust_pace-published : (n : SyncNode) → (adjust_pace n).published ≡ n.published
  unfolding adjust_pace
  adjust_pace-published n = ground arith

  job_sync_tick-published :
      (n : SyncNode)
      → All (All IsCleared) n.published
      → All (All IsCleared) (job_sync_tick hash n).published
  job_sync_tick-published n all =
      subst (All (All IsCleared))
        (sym (
          ap (λ (k : SyncNode). k.published) (job_sync_tick_lem hash n)
          ∙ adjust_pace-published (broadcast hash (trimmed n.job_manager) n)))
        (broadcast-published (trimmed n.job_manager) n (All-trimmed n.job_manager) all)

  -- Every key of a node's table after it has taken the messages of another node's ticks, of which
  -- the messages before the last tick have cleared jobs: without a later stamp in the messages, the
  -- entry is as before; with one, the local job is replaced by a job with the latest stamp of the
  -- messages, whose logs and artifacts are erased.
  pub deliver_jobs-job_sync_tick :
      (json : Codec) (writable : Bool) (n : SyncNode) (m : JobManager) (key : String)
      → All (All IsCleared) n.published
      → let messages = (job_sync_tick hash n).published in
        let before = Dict.get m.state.jobs key in
        let after = Dict.get (deliver_jobs json writable messages m).state.jobs key in
        ((later (stamp_of before) (newest_sent key messages) ≡ false) × (after ≡ before))
        ⊎ ((later (stamp_of before) (newest_sent key messages) ≡ true)
            × IsReplaced (newest_sent key messages) after)
  deliver_jobs-job_sync_tick json writable n m key all =
      let messages = (job_sync_tick hash n).published in
      erased_by key (Dict.get m.state.jobs key) _ (newest_sent key messages)
        (stamp-deliver_jobs json writable messages m key)
        (λ job there.
          deliver_jobs-Origin IsCleared json writable messages job m key
            (job_sync_tick-published n all) (inl there))
