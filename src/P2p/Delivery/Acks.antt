-- ===== src/P2p/Delivery/Acks.antt =====
-- What acknowledgements do to the queue of status messages in crates/agent/src/p2p/mod.rs.
use peer_deploy.Prelude.{
  String, ◌≡◌, refl, ap, ◌∙◌, inl, inr, true, false, Option, none, some, List, [], ◌∷◌, All, arith,
  eq_iff, Bool-cases, Option-cases,
}
use peer_deploy.Common.Component.{is_empty, contains}
use peer_deploy.P2p.Broadcasts.{
  Key, key_eq, PendingJob, Queue, find, forget, drop_peer, strike, acknowledge,
}

key_eq-path : (a b : Key) → key_eq a b ≡ true → a ≡ b
unfolding key_eq
key_eq-path a b h =
    let j = (eq_iff a.job_id b.job_id).0 (ground (arith, h)) in
    let s = (eq_iff a.status b.status).0 (ground (arith, h)) in
    let m = (eq_iff a.message_id b.message_id).0 (ground (arith, h)) in
    λ i. record { job_id = j i; status = s i; message_id = m i }

find-forget : (k : Key) (q : Queue) → find k (forget k q) ≡ none
unfolding find forget
find-forget k [] = refl
find-forget k ((j, p) ∷ q) = elim (Bool-cases (key_eq j k)) [
  | inl same ↦ rw (same) (find-forget k q)
  | inr other ↦ rw (other) (rw (other) (find-forget k q))
]

find-forget_other : (k i : Key) (q : Queue) → key_eq k i ≡ false → find i (forget k q) ≡ find i q
unfolding find forget
find-forget_other k i [] h = refl
find-forget_other k i ((j, p) ∷ q) h = elim (Bool-cases (key_eq j k)) [
  | inl same ↦
      let apart = ap (λ c. key_eq c i) (key_eq-path j k same) ∙ h in
      rw (same) (rw (apart) (find-forget_other k i q h))
  | inr other ↦ rw (other) (elim (Bool-cases (key_eq j i)) [
    | inl hit ↦ rw (hit) refl
    | inr miss ↦ rw (miss) (find-forget_other k i q h)
  ])
]

find-strike :
    (k : Key) (pid : String) (p : PendingJob) (q : Queue)
    → find k q ≡ some p
    → find k (strike k pid q) ≡ some (record p { peers = drop_peer pid p.peers })
unfolding find strike
find-strike k pid p [] e = absurd (ground (arith, e))
find-strike k pid p ((j, r) ∷ q) e = elim (Bool-cases (key_eq j k)) [
  | inl same ↦ rw (same) (
      rw (same) (
        ap
          (λ (o : Option PendingJob). elim o [
            | none ↦ none
            | some u ↦ some (record u { peers = drop_peer pid u.peers })
          ])
          (rw (same) at e)))
  | inr other ↦ rw (other) (rw (other) (find-strike k pid p q (rw (other) at e)))
]

find-strike_other :
    (k i : Key) (pid : String) (q : Queue) → key_eq k i ≡ false → find i (strike k pid q) ≡ find i q
unfolding find strike
find-strike_other k i pid [] h = refl
find-strike_other k i pid ((j, p) ∷ q) h = elim (Bool-cases (key_eq j k)) [
  | inl same ↦
      let apart = ap (λ c. key_eq c i) (key_eq-path j k same) ∙ h in rw (same) (rw (apart) refl)
  | inr other ↦ rw (other) (elim (Bool-cases (key_eq j i)) [
    | inl hit ↦ rw (hit) refl
    | inr miss ↦ rw (miss) (find-strike_other k i pid q h)
  ])
]

-- The acknowledgements of one message, one after the other.
unfoldable pub acknowledge_each : Key → List String → Queue → Queue
acknowledge_each k [] q = q
acknowledge_each k (pid ∷ pids) q = acknowledge_each k pids (acknowledge k pid q)

acknowledge-other :
    (k i : Key) (pid : String) (q : Queue)
    → key_eq k i ≡ false
    → find i (acknowledge k pid q) ≡ find i q
unfolding acknowledge
acknowledge-other k i pid q h = elim (Option-cases (find k q)) [
  | inl absent ↦ rw (absent, acknowledge) refl
  | inr (p, known) ↦ elim (Bool-cases (is_empty (drop_peer pid p.peers))) [
    | inl last ↦ rw (known, acknowledge, last) (find-forget_other k i q h)
    | inr more ↦ rw (known, acknowledge, more) (find-strike_other k i pid q h)
  ]
]

acknowledge_each-other :
    (k i : Key) (pids : List String) (q : Queue)
    → key_eq k i ≡ false
    → find i (acknowledge_each k pids q) ≡ find i q
unfolding acknowledge_each
acknowledge_each-other k i [] q h = refl
acknowledge_each-other k i (pid ∷ pids) q h =
    acknowledge_each-other k i pids (acknowledge k pid q) h ∙ acknowledge-other k i pid q h

acknowledge-absent :
    (k : Key) (pid : String) (q : Queue) → find k q ≡ none → acknowledge k pid q ≡ q
unfolding acknowledge
acknowledge-absent k pid q h = rw (h, acknowledge) refl

-- The last acknowledgement, and an earlier one.
acknowledge-last :
    (k : Key) (pid : String) (p : PendingJob) (q : Queue)
    → find k q ≡ some p
    → is_empty (drop_peer pid p.peers) ≡ true
    → acknowledge k pid q ≡ forget k q
unfolding acknowledge
acknowledge-last k pid p q e last = rw (e, acknowledge, last) refl

acknowledge-more :
    (k : Key) (pid : String) (p : PendingJob) (q : Queue)
    → find k q ≡ some p
    → is_empty (drop_peer pid p.peers) ≡ false
    → acknowledge k pid q ≡ strike k pid q
unfolding acknowledge
acknowledge-more k pid p q e more = rw (e, acknowledge, more) refl

acknowledge_each-absent :
    (k : Key) (pids : List String) (q : Queue)
    → find k q ≡ none
    → find k (acknowledge_each k pids q) ≡ none
unfolding acknowledge_each
acknowledge_each-absent k [] q h = h
acknowledge_each-absent k (pid ∷ pids) q h =
    ap (λ r. find k (acknowledge_each k pids r)) (acknowledge-absent k pid q h)
    ∙ acknowledge_each-absent k pids q h

-- Every peer of the list is among those that acknowledge.
abbrev pub Covered : List String → List String → Type 0
Covered pids peers = All (λ peer. contains pids peer ≡ true) peers

Covered-drop_peer :
    (pid : String) (pids peers : List String)
    → Covered (pid ∷ pids) peers
    → Covered pids (drop_peer pid peers)
unfolding contains drop_peer
Covered-drop_peer pid pids [] h = tt
Covered-drop_peer pid pids (p ∷ peers) h =
    ground (arith, h.0, eq_iff pid p, eq_iff p pid, Covered-drop_peer pid pids peers h.1)

no_cover : (peers : List String) → is_empty peers ≡ false → Covered [] peers → ⊥
unfolding contains
no_cover [] e h = ground (arith, e)
no_cover (p ∷ peers) e h = ground (arith, h.0)

acknowledge_each-none :
    (k : Key) (pids : List String) (p : PendingJob) (q : Queue)
    → find k q ≡ some p
    → is_empty p.peers ≡ false
    → Covered pids p.peers
    → find k (acknowledge_each k pids q) ≡ none
unfolding acknowledge_each
acknowledge_each-none k [] p q e some_peer h = absurd (no_cover p.peers some_peer h)
acknowledge_each-none k (pid ∷ pids) p q e some_peer h =
    elim (Bool-cases (is_empty (drop_peer pid p.peers))) [
      | inl last ↦
          ap (λ r. find k (acknowledge_each k pids r)) (acknowledge-last k pid p q e last)
          ∙ acknowledge_each-absent k pids (forget k q) (find-forget k q)
      | inr more ↦
          ap (λ r. find k (acknowledge_each k pids r)) (acknowledge-more k pid p q e more)
          ∙ acknowledge_each-none k pids (record p { peers = drop_peer pid p.peers })
              (strike k pid q) (find-strike k pid p q e) more (Covered-drop_peer pid pids p.peers h)
    ]

-- A message that waits for at least one peer leaves the queue once all its peers have acknowledged it,
-- in any order and with repetitions, and the other messages in the queue stay as they are.
pub acknowledge_each_lem :
    (k i : Key) (pids : List String) (p : PendingJob) (q : Queue)
    → find k q ≡ some p
    → is_empty p.peers ≡ false
    → Covered pids p.peers
    → key_eq k i ≡ false
    → (find k (acknowledge_each k pids q) ≡ none) × (find i (acknowledge_each k pids q) ≡ find i q)
acknowledge_each_lem k i pids p q e some_peer h other =
    (acknowledge_each-none k pids p q e some_peer h, acknowledge_each-other k i pids q other)
