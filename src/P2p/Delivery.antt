-- ===== src/P2p/Delivery.antt =====
-- The bound of the queue of status messages in crates/agent/src/p2p/mod.rs.
pub mod Acks
use peer_deploy.Prelude.{
  ℕ, ◌+◌, ◌-◌, ◌≤◌, ◌<◌, String, ◌≡◌, refl, ap, ◌∙◌, ◌⊎◌, inl, inr, Bool, true, false, Option, none,
  some, List, [], ◌∷◌, zero, suc, length, arith, ltb, keep, length-keep, str_eq, eq_refl, eq_iff,
  Bool-cases, Option-cases, if◌then◌else◌,
}
use peer_deploy.Common.Component.{is_empty}
use peer_deploy.P2p.Broadcasts.{
  Key, key_eq, PendingJob, Queue, find, forget, oldest, evict_oldest, evict, cap, prune, retry,
  tick, drop_peer, strike, acknowledge, max_pending_broadcasts,
}

key_eq_refl : (k : Key) → key_eq k k ≡ true
unfolding key_eq
key_eq_refl k = ground (arith, eq_refl k.job_id, eq_refl k.status, eq_refl k.message_id)

-- The key leads to an entry.
abbrev IsIn : Key → Queue → Type 0
IsIn k q = (p : PendingJob) × (find k q ≡ some p)

IsIn-cons : (k j : Key) (p : PendingJob) (q : Queue) → IsIn k q → IsIn k ((j, p) ∷ q)
unfolding find
IsIn-cons k j p q (r, e) = elim (Bool-cases (key_eq j k)) [
  | inl same ↦ (p, rw (same) refl)
  | inr other ↦ (r, rw (other) e)
]

IsIn-head : (k : Key) (p : PendingJob) (q : Queue) → IsIn k ((k, p) ∷ q)
unfolding find
IsIn-head k p q = (p, rw (key_eq_refl k) refl)

oldest_found :
    (best : Key) (created : ℕ) (q : Queue)
    → (oldest best created q ≡ best) ⊎ IsIn (oldest best created q) q
unfolding oldest
oldest_found best created [] = inl refl
oldest_found best created ((k, p) ∷ q) = elim (Bool-cases (ltb p.created created)) [
  | inl older ↦ rw (older) (
      inr (elim (oldest_found k p.created q) [
        | inl first ↦ rw (first) (IsIn-head k p q)
        | inr later ↦ IsIn-cons (oldest k p.created q) k p q later
      ]))
  | inr newer ↦ rw (newer) (elim (oldest_found best created q) [
    | inl first ↦ inl first
    | inr later ↦ inr (IsIn-cons (oldest best created q) k p q later)
  ])
]

length-forget : (k : Key) (q : Queue) → length (forget k q) ≤ length q
unfolding forget
length-forget k [] = omega arith
length-forget k ((j, p) ∷ q) = ground (arith, length-forget k q)

length-forget_found : (k : Key) (q : Queue) → IsIn k q → length (forget k q) < length q
unfolding forget find
length-forget_found k [] (p, e) = absurd (ground (arith, e))
length-forget_found k ((j, r) ∷ q) (p, e) = elim (Bool-cases (key_eq j k)) [
  | inl same ↦ rw (same) (omega (arith, length-forget k q))
  | inr other ↦ rw (other) (omega (arith, length-forget_found k q (p, ground (arith, other, e))))
]

length-evict_oldest : (n : ℕ) (q : Queue) → length q ≤ suc n → length (evict_oldest q) ≤ n
unfolding evict_oldest
length-evict_oldest n [] h = omega arith
length-evict_oldest n ((k, p) ∷ q) h = omega (
  arith,
  h,
  length-forget_found (oldest k p.created q) ((k, p) ∷ q) (elim (oldest_found k p.created q) [
    | inl first ↦ rw (first) (IsIn-head k p q)
    | inr later ↦ IsIn-cons (oldest k p.created q) k p q later
  ]),
)

length-evict : (n m : ℕ) (q : Queue) → length q ≤ m + n → length (evict n q) ≤ m
unfolding evict
length-evict zero m q h = omega (arith, h)
length-evict (suc n) m q h =
    length-evict n m (evict_oldest q) (length-evict_oldest (m + n) q (omega (arith, h)))

length-cap : (q : Queue) → length (cap q) ≤ max_pending_broadcasts
unfolding cap
length-cap q = elim (Bool-cases (ltb max_pending_broadcasts (length q))) [
  | inl over ↦ rw (over) (
      length-evict (length q - max_pending_broadcasts) max_pending_broadcasts q
        (ground (arith, over)))
  | inr within ↦ rw (within) (ground (arith, within))
]

length-retry :
    (now : ℕ) (connected : List String) (jitter : ℕ → ℕ) (q : Queue)
    → length (retry now connected jitter q).1 ≡ length q
unfolding retry
length-retry now connected jitter [] = refl
length-retry now connected jitter ((k, p) ∷ q) =
    omega (arith, length-retry now connected (λ i. jitter (suc i)) q)

-- After a tick at most 50000 messages wait, however many there were.
pub length-tick :
    (now : ℕ) (connected : List String) (jitter : ℕ → ℕ) (q : Queue)
    → length (tick now connected jitter q).1 ≤ max_pending_broadcasts
unfolding tick
length-tick now connected jitter q =
    omega (arith, length-retry now connected jitter (cap (prune now q)), length-cap (prune now q))
