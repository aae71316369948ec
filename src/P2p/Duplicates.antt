-- ===== src/P2p/Duplicates.antt =====
-- Repeated job status messages in crates/agent/src/p2p/mod.rs: senders repeat a message until it is
-- acknowledged, and a repetition must not change the table of jobs.
use peer_deploy.Prelude.{
  ℕ, ◌+◌, ◌-◌, ◌≤◌, ◌<◌, String, ◌≡◌, refl, ap, ◌∙◌, inl, inr, Bool, true, false, none, some, List,
  [], ◌∷◌, All, arith, ltb, keep, str_eq, eq_iff, eq_refl, Bool-cases,
}
use peer_deploy.Prelude.Dict
use peer_deploy.Prelude.Dict.{Dict, is_some, get-insert}
use peer_deploy.Common.Job.{Clock}
use peer_deploy.JobManager.State.{Codec}
use peer_deploy.P2p.Status.{
  JobStatusCommand, Seen, StatusNode, Delivery, dedup_cache_ttl, job_status_tuple, clean_cache,
  handle_status, deliver_each,
}

some-inj : (s t : Seen) → some s ≡ some t → s ≡ t
some-inj s t h = ap (λ o. elim o [ none ↦ s | some u ↦ u ]) h

-- An entry that passes the test stays.
get-keep :
    (p : String × Seen → Bool) (k : String) (v : Seen) (m : Dict Seen)
    → Dict.get m k ≡ some v
    → p (k, v) ≡ true
    → Dict.get (keep p m) k ≡ some v
unfolding Dict.get
get-keep p k v [] e h = absurd (ground (arith, e))
get-keep p k v ((j, w) ∷ m) e h = elim (Bool-cases (str_eq j k)) [
  | inl same ↦
      let w-v = some-inj w v (ground (arith, e, same)) in
      let stays = ap (λ i. p (i, w)) ((eq_iff j k).0 same) ∙ ap (λ u. p (k, u)) w-v ∙ h in
      rw (stays) (rw (same) (ap some w-v))
  | inr other ↦ elim (Bool-cases (p (j, w))) [
    | inl stays ↦ rw (stays) (rw (other) (get-keep p k v m (ground (arith, e, other)) h))
    | inr goes ↦ rw (goes) (get-keep p k v m (ground (arith, e, other)) h)
  ]
]

-- The id is in the cache since the instant.
abbrev pub Since : String → ℕ → StatusNode → Type 0
Since i start n = (s : Seen) × (Dict.get n.seen_cache i ≡ some s) × (s.timestamp ≡ start)

-- The instant lies in the lifetime of an entry.
abbrev pub Lives : ℕ → ℕ → Type 0
Lives start instant = (start ≤ instant) × (instant < start + dedup_cache_ttl)

get-clean_cache :
    (i : String) (start t : ℕ) (s : Seen) (cache : Dict Seen)
    → Dict.get cache i ≡ some s
    → s.timestamp ≡ start
    → Lives start t
    → Dict.get (clean_cache t cache) i ≡ some s
unfolding clean_cache
get-clean_cache i start t s cache e same lives =
    get-keep (λ entry. ltb (t - entry.1.timestamp) dedup_cache_ttl) i s cache e
      (fresh_enough s.timestamp t (ground (arith, same, lives.1)))
  where
    fresh_enough : (u t : ℕ) → t < u + dedup_cache_ttl → ltb (t - u) dedup_cache_ttl ≡ true
    fresh_enough u t h = ground (arith, h)

-- A write under an absent key leaves what the other keys lead to.
get-insert_absent :
    (k i : String) (v s : Seen) (m : Dict Seen)
    → is_some (Dict.get m k) ≡ false
    → Dict.get m i ≡ some s
    → Dict.get (Dict.insert k v m) i ≡ some s
get-insert_absent k i v s m new e = elim (Bool-cases (str_eq k i)) [
  | inl same ↦
      absurd (ground (arith, ap (λ j. is_some (Dict.get m j)) ((eq_iff k i).0 same), new, e))
  | inr other ↦ get-insert k i v m ∙ rw (other) e
]

module _ (json : Codec) where
  -- Within its lifetime an entry survives every message.
  handle_status-Since :
      (w : Bool) (clock : Clock) (t : ℕ) (cmd : JobStatusCommand) (i : String) (start : ℕ)
      (n : StatusNode)
      → Since i start n
      → Lives start t
      → Since i start (handle_status json w clock t cmd n)
  unfolding handle_status
  handle_status-Since w clock t cmd i start n (s, e, same) lives =
      let mid = (job_status_tuple cmd).message_id in
      let kept = get-clean_cache i start t s n.seen_cache e same lives in
      elim (Bool-cases (is_some (Dict.get (clean_cache t n.seen_cache) mid))) [
        | inl seen ↦ rw (seen) (s, kept, same)
        | inr new ↦
            rw (new) (s, get-insert_absent mid i _ s (clean_cache t n.seen_cache) new kept, same)
      ]

  -- A message whose id is in the cache changes no job.
  handle_status-seen :
      (w : Bool) (clock : Clock) (t : ℕ) (cmd : JobStatusCommand) (start : ℕ) (n : StatusNode)
      → Since (job_status_tuple cmd).message_id start n
      → Lives start t
      → (handle_status json w clock t cmd n).manager ≡ n.manager
  unfolding handle_status
  handle_status-seen w clock t cmd start n (s, e, same) lives =
      rw (get-clean_cache (job_status_tuple cmd).message_id start t s n.seen_cache e same lives)
        refl

  deliver_each-Since :
      (ds : List Delivery) (i : String) (start : ℕ) (n : StatusNode)
      → All (λ (d : Delivery). Lives start d.instant) ds
      → Since i start n
      → Since i start (deliver_each json ds n)
  unfolding deliver_each
  deliver_each-Since [] i start n h s = s
  deliver_each-Since (d ∷ ds) i start n h s =
      deliver_each-Since ds i start (handle_status json d.writable d.clock d.instant d.command n)
        h.1 (handle_status-Since d.writable d.clock d.instant d.command i start n s h.0)

  -- The first message of an id is in the cache since then.
  handle_status-first :
      (w : Bool) (clock : Clock) (start : ℕ) (cmd : JobStatusCommand) (n : StatusNode)
      → Dict.get (clean_cache start n.seen_cache) (job_status_tuple cmd).message_id ≡ none
      → Since (job_status_tuple cmd).message_id start (handle_status json w clock start cmd n)
  unfolding handle_status
  handle_status-first w clock start cmd n h =
      let mid = (job_status_tuple cmd).message_id in
      let entry : Seen = record { timestamp = start; content = job_status_tuple cmd } in
      let found =
        get-insert mid mid entry (clean_cache start n.seen_cache) ∙ rw (eq_refl mid) refl in
      rw (h) (entry, found, refl)

  -- Once a node has handled a status message with a new id, another message with that id changes no
  -- job, whatever it says and whatever other status messages came in between, as long as all come
  -- less than ten minutes after the first.
  pub handle_status_once :
      (w v : Bool) (clock later : Clock) (start t : ℕ) (cmd again : JobStatusCommand)
      (ds : List Delivery) (n : StatusNode)
      → Dict.get (clean_cache start n.seen_cache) (job_status_tuple cmd).message_id ≡ none
      → (job_status_tuple again).message_id ≡ (job_status_tuple cmd).message_id
      → All (λ (d : Delivery). Lives start d.instant) ds
      → Lives start t
      → let n' = deliver_each json ds (handle_status json w clock start cmd n) in
        (handle_status json v later t again n').manager ≡ n'.manager
  handle_status_once w v clock later start t cmd again ds n new same h lives =
      let n' = deliver_each json ds (handle_status json w clock start cmd n) in
      handle_status-seen v later t again start n'
        (deliver_each-Since ds (job_status_tuple again).message_id start
          (handle_status json w clock start cmd n) h
          (rw (same) (handle_status-first w clock start cmd n new)))
        lives
