-- ===== src/P2p/Broadcasts.antt =====
-- The queue of job status messages that wait for acknowledgements, in `run_agent` of
-- crates/agent/src/p2p/mod.rs. Instants are in nanoseconds. A map's order of iteration is the order of the
-- list, and a set of peers is a list. Log lines are left out.
use peer_deploy.Prelude.{
  ℕ, ◌+◌, ◌-◌, ◌*◌, ◌/◌, ◌^◌, String, Bool, not, ◌&&◌, Option, none, some, List, [], ◌∷◌, ◌++◌,
  zero, suc, length, ltb, leb, keep, str_eq, if◌then◌else◌,
}
use peer_deploy.Common.Component.{is_empty, contains}
use peer_deploy.P2p.Status.{JobStatusCommand, job_status_tuple}

-- The job's id, the status and the message's id.
pub record Key : Type 0 where
  pub job_id : String
  pub status : String
  pub message_id : String

unfoldable pub key_eq : Key → Key → Bool
key_eq a b =
    str_eq a.job_id b.job_id && str_eq a.status b.status && str_eq a.message_id b.message_id

unfoldable pub job_status_key : JobStatusCommand → Key
unfolding job_status_tuple
job_status_key cmd =
    let t = job_status_tuple cmd in
    record { job_id = t.job_id; status = t.status; message_id = t.message_id }

pub record PendingJob : Type 0 where
  pub cmd : JobStatusCommand
  pub peers : List String
  pub created : ℕ
  pub last_sent : ℕ
  pub retry_count : ℕ

abbrev pub Queue : Type 0
Queue = List (Key × PendingJob)

unfoldable pub find : Key → Queue → Option PendingJob
find k [] = none
find k ((j, p) ∷ q) = if key_eq j k then some p else find k q

-- `pending_job_broadcasts.remove(&key)`
unfoldable pub forget : Key → Queue → Queue
forget k [] = []
forget k ((j, p) ∷ q) = let rest = forget k q in if key_eq j k then rest else (j, p) ∷ rest

-- `pending_job_broadcasts.insert(key, p)`
unfoldable pub put : Key → PendingJob → Queue → Queue
unfolding forget
put k p q = (k, p) ∷ forget k q

-- A new status message of this node.
unfoldable pub enqueue : ℕ → List String → JobStatusCommand → Queue → Queue
unfolding put job_status_key
enqueue now connected cmd q =
    put (job_status_key cmd)
      (record { cmd = cmd; peers = connected; created = now; last_sent = now; retry_count = 0 }) q

-- `p.peers.remove(&pid)`
unfoldable pub drop_peer : String → List String → List String
drop_peer pid peers = keep (λ p. not (str_eq p pid)) peers

-- `get_mut(&key)` and the removal of the peer.
unfoldable pub strike : Key → String → Queue → Queue
unfolding drop_peer
strike k pid [] = []
strike k pid ((j, p) ∷ q) =
    if key_eq j k
    then (j, record p { peers = drop_peer pid p.peers }) ∷ q
    else (j, p) ∷ strike k pid q

-- `JobStatusAck`: the entry goes when its last peer does.
unfoldable pub acknowledge : Key → String → Queue → Queue
unfolding find strike forget drop_peer
acknowledge k pid q = elim (find k q) [
  | none ↦ q
  | some p ↦ if is_empty (drop_peer pid p.peers) then forget k q else strike k pid q
]

-- `PENDING_ENTRY_TTL` and `MAX_PENDING_BROADCASTS`
abbrev pub pending_entry_ttl : ℕ
pending_entry_ttl = 30 * 60 * 1000000000

abbrev pub max_pending_broadcasts : ℕ
max_pending_broadcasts = 50000

unfoldable pub prune : ℕ → Queue → Queue
prune now q = keep (λ (e : Key × PendingJob). not (ltb pending_entry_ttl (now - e.1.created))) q

-- `iter().min_by_key(|(_, p)| p.created)`: the first of the oldest entries, from the best so far.
unfoldable pub oldest : Key → ℕ → Queue → Key
oldest best created [] = best
oldest best created ((k, p) ∷ q) =
    let kept = oldest best created q in if ltb p.created created then oldest k p.created q else kept

unfoldable pub evict_oldest : Queue → Queue
unfolding oldest forget
evict_oldest [] = []
evict_oldest ((k, p) ∷ q) = forget (oldest k p.created q) ((k, p) ∷ q)

-- `for _ in 0..excess`
unfoldable pub evict : ℕ → Queue → Queue
unfolding evict_oldest
evict zero q = q
evict (suc n) q = evict n (evict_oldest q)

unfoldable pub cap : Queue → Queue
unfolding evict
cap q =
    if ltb max_pending_broadcasts (length q) then evict (length q - max_pending_broadcasts) q else q

-- `delay_secs`, where `jitter` is the random number, at most half of the backoff.
unfoldable pub delay_secs : ℕ → ℕ → ℕ
delay_secs retry_count jitter =
    let backoff = if leb 5 retry_count then 32 else 2 ^ retry_count in
    let delay = backoff / 2 + jitter in if ltb delay 1 then 1 else delay

abbrev pub reseed : List String → List String → List String
reseed connected [] = connected
reseed connected (p ∷ peers) = p ∷ peers

-- One entry of the retry: what is published, and the entry after it.
unfoldable pub retry_one : ℕ → List String → ℕ → PendingJob → List JobStatusCommand × PendingJob
unfolding delay_secs
retry_one now connected jitter p =
    let seeded = record p { peers = reseed connected p.peers } in
    if not (is_empty seeded.peers)
      && leb (delay_secs p.retry_count jitter * 1000000000) (now - p.last_sent)
    then (
      p.cmd ∷ [],
      record seeded {
        last_sent = now;
        retry_count = if leb 4294967295 p.retry_count then p.retry_count else p.retry_count + 1;
      },
    )
    else ([], seeded)

-- `jitter i` is the random number for the i-th entry.
unfoldable pub retry : ℕ → List String → (ℕ → ℕ) → Queue → List JobStatusCommand × Queue
unfolding retry_one
retry now connected jitter [] = ([], [])
retry now connected jitter ((k, p) ∷ q) =
    let (sent, p') = retry_one now connected (jitter 0) p in
    let (rest, q') = retry now connected (λ i. jitter (suc i)) q in (sent ++ rest, (k, p') ∷ q')

-- The part of the periodic tick that is about the queue.
unfoldable pub tick : ℕ → List String → (ℕ → ℕ) → Queue → List JobStatusCommand × Queue
unfolding prune cap retry
tick now connected jitter q = retry now connected jitter (cap (prune now q))

-- `ConnectionEstablished`: `pending.peers.insert(peer_id)`
unfoldable pub connect : String → Queue → Queue
unfolding contains
connect peer [] = []
connect peer ((k, p) ∷ q) =
    (k, record p { peers = if contains p.peers peer then p.peers else peer ∷ p.peers })
    ∷ connect peer q
