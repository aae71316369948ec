-- ===== src/P2p/Sync/Quiet.antt =====
-- The repetition of the tick that spreads jobs (crates/agent/src/p2p/mod.rs).
use Prim.Native.Nat.{min}
use native.Mathlib.Nat.{pow-suc}
use peer_deploy.Prelude.{
  ℕ, zero, suc, ◌*◌, ◌^◌, ◌≤◌, ◌≡◌, refl, sym, ap, ◌∙◌, true, List, [], ◌∷◌, arith, leb, ◌==◌, map,
  inl, inr, Bool-cases,
}
use mathlib.Core.Path.{subst}
use peer_deploy.Common.Job.{JobInstance}
use peer_deploy.P2p.Sync.{
  SyncNode, Hashed, hashed, same_hash, broadcast, adjust_pace, job_sync_tick, trimmed,
}

same_refl : (c : ℕ) → (c == c) ≡ true
same_refl c = ground arith

leb_of_le : (m n : ℕ) → m ≤ n → leb m n ≡ true
leb_of_le m n h = ground arith

power : (i k : ℕ) → i * 2 ^ suc k ≡ i * 2 ^ k * 2
power i k = grind (arith, pow-suc 2 k)

module _ (hash : List Hashed → ℕ) where
  -- `k` ticks in a row, with no change of a job in between.
  abbrev pub ticks : ℕ → SyncNode → SyncNode
  ticks zero n = n
  ticks (suc k) n = job_sync_tick hash (ticks k n)

  broadcast_idem :
      (jobs : List JobInstance) (n : SyncNode)
      → broadcast hash jobs (broadcast hash jobs n) ≡ broadcast hash jobs n
  unfolding broadcast same_hash
  broadcast_idem [] n = refl
  broadcast_idem (job ∷ jobs) n =
      elim (Bool-cases (same_hash n.last_job_state_hash (hash (map hashed (job ∷ jobs))))) [
        | inl same ↦ rw (same, broadcast) (rw (same, broadcast) refl)
        | inr fresh ↦ rw (fresh, broadcast) (rw (same_refl (hash (map hashed (job ∷ jobs)))) refl)
      ]

  broadcast-job_manager :
      (jobs : List JobInstance) (n : SyncNode)
      → ((broadcast hash jobs n).job_manager ≡ n.job_manager)
        × ((broadcast hash jobs n).last_job_sync ≡ n.last_job_sync)
  unfolding broadcast
  broadcast-job_manager [] n = (refl, refl)
  broadcast-job_manager (job ∷ jobs) n =
      elim (Bool-cases (same_hash n.last_job_state_hash (hash (map hashed (job ∷ jobs))))) [
        | inl same ↦ rw (same, broadcast) (refl, refl)
        | inr fresh ↦ rw (fresh, broadcast) (refl, refl)
      ]

  -- Nothing is left to send, and the last change is known.
  record IsSettled (n : SyncNode) : Type 0 where
    pub sent : broadcast hash (trimmed n.job_manager) n ≡ n
    pub known : n.job_manager.last_update ≤ n.last_job_sync

  -- The node with another pace, and with another last change.
  abbrev pub paced : ℕ → SyncNode → SyncNode
  paced interval n = record n { job_sync_interval = interval }

  abbrev timed : ℕ → ℕ → SyncNode → SyncNode
  timed interval last n = record n { job_sync_interval = interval; last_job_sync = last }

  broadcast-timed :
      (jobs : List JobInstance) (i l : ℕ) (n : SyncNode)
      → broadcast hash jobs (timed i l n) ≡ timed i l (broadcast hash jobs n)
  unfolding broadcast
  broadcast-timed [] i l n = refl
  broadcast-timed (job ∷ jobs) i l n =
      elim (Bool-cases (same_hash n.last_job_state_hash (hash (map hashed (job ∷ jobs))))) [
        | inl same ↦ rw (same) refl
        | inr fresh ↦ rw (fresh) refl
      ]

  pub job_sync_tick_lem :
      (n : SyncNode) → job_sync_tick hash n ≡ adjust_pace (broadcast hash (trimmed n.job_manager) n)
  unfolding job_sync_tick
  job_sync_tick_lem n = refl

  timed-IsSettled :
      (i l : ℕ) (n : SyncNode)
      → broadcast hash (trimmed n.job_manager) n ≡ n
      → n.job_manager.last_update ≤ l
      → IsSettled (timed i l n)
  timed-IsSettled i l n sent known = record {
    sent = broadcast-timed (trimmed n.job_manager) i l n ∙ ap (timed i l) sent;
    known = known;
  }

  adjust_pace-IsSettled :
      (n : SyncNode) → broadcast hash (trimmed n.job_manager) n ≡ n → IsSettled (adjust_pace n)
  unfolding adjust_pace
  adjust_pace-IsSettled n sent = elim (Bool-cases (leb n.job_manager.last_update n.last_job_sync)) [
    | inl known ↦
        rw (known, adjust_pace)
          (timed-IsSettled (min (n.job_sync_interval * 2) 300) n.last_job_sync n sent
            (ground arith))
    | inr news ↦
        rw (news, adjust_pace) (timed-IsSettled 15 n.job_manager.last_update n sent (omega arith))
  ]

  job_sync_tick-IsSettled : (n : SyncNode) → IsSettled (job_sync_tick hash n)
  job_sync_tick-IsSettled n =
      let m = broadcast hash (trimmed n.job_manager) n in
      let same = broadcast-job_manager (trimmed n.job_manager) n in
      subst IsSettled (sym (job_sync_tick_lem n)) (
        adjust_pace-IsSettled m (
          subst (λ j. broadcast hash (trimmed j) m ≡ m) (sym same.0)
            (broadcast_idem (trimmed n.job_manager) n)))

  -- A settled node changes its interval only.
  adjust_pace_settled :
      (n : SyncNode)
      → n.job_manager.last_update ≤ n.last_job_sync
      → adjust_pace n ≡ paced (min (n.job_sync_interval * 2) 300) n
  unfolding adjust_pace
  adjust_pace_settled n h = rw (leb_of_le _ _ h, adjust_pace) refl

  job_sync_tick_settled :
      (n : SyncNode)
      → IsSettled n
      → job_sync_tick hash n ≡ paced (min (n.job_sync_interval * 2) 300) n
  job_sync_tick_settled n h =
      job_sync_tick_lem n ∙ ap adjust_pace h.sent ∙ adjust_pace_settled n h.known

  adjust_pace-slow : (n : SyncNode) → (adjust_pace n).job_sync_interval ≤ 300
  unfolding adjust_pace
  adjust_pace-slow n = ground arith

  ticks_settled :
      (k : ℕ) (n : SyncNode)
      → IsSettled n
      → n.job_sync_interval ≤ 300
      → ticks k n ≡ paced (min (n.job_sync_interval * 2 ^ k) 300) n
  ticks_settled zero n h slow = ap (λ i. paced i n) {x = n.job_sync_interval} (omega (arith, slow))
  ticks_settled (suc k) n h slow =
      let m = paced (min (n.job_sync_interval * 2 ^ k) 300) n in
      ap (job_sync_tick hash) (ticks_settled k n h slow)
      ∙ job_sync_tick_settled m
          (timed-IsSettled m.job_sync_interval n.last_job_sync n h.sent h.known)
      ∙ ap (λ i. paced i n) (omega (arith, power n.job_sync_interval k))

  -- A node whose jobs do not change sends at most one message: after a tick, any number `k` of further ticks sends
  -- nothing and changes nothing but the interval, which is doubled `k` times, up to 300 seconds.
  pub ticks-job_sync_tick :
      (k : ℕ) (n : SyncNode)
      → let m = job_sync_tick hash n in ticks k m ≡ paced (min (m.job_sync_interval * 2 ^ k) 300) m
  ticks-job_sync_tick k n = ticks_settled k (job_sync_tick hash n) (job_sync_tick-IsSettled n) (
      subst (λ (m : SyncNode). m.job_sync_interval ≤ 300) (sym (job_sync_tick_lem n))
        (adjust_pace-slow (broadcast hash (trimmed n.job_manager) n)))
