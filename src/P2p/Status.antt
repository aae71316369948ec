-- ===== src/P2p/Status.antt =====
-- The job status messages in `run_agent` of crates/agent/src/p2p/mod.rs: `job_status_tuple`, the cache
-- of message ids, and the handlers of the four messages. Instants are in nanoseconds; a status that
-- the node sends in return is an acknowledgement. Log lines and the counters are left out.
use peer_deploy.Prelude.{
  ℕ, ◌-◌, ◌*◌, String, Bool, Option, none, some, List, [], ◌∷◌, ◌++◌, ltb, keep, if◌then◌else◌,
}
use peer_deploy.Prelude.Dict
use peer_deploy.Prelude.Dict.{Dict, is_some}
use peer_deploy.Prelude.Int.{ℤ}
use peer_deploy.Common.Job.{JobInstance, Clock}
use peer_deploy.JobManager.State.{JobManager, Codec}
use peer_deploy.JobManager.Operations.{
  get_job, update_job_assignment, start_job, complete_job, fail_job,
}

-- The four commands that tell of a job's status: the job's id, the assigned node, what the status
-- adds, and the message's id.
pub data JobStatusCommand : Type 0 where
  job_accepted : String → String → String → JobStatusCommand
  job_started : String → String → String → JobStatusCommand
  job_completed : String → String → ℤ → String → JobStatusCommand
  job_failed : String → String → String → String → JobStatusCommand

-- The job's id, the status, the assigned node and the message's id.
pub record StatusTuple : Type 0 where
  pub job_id : String
  pub status : String
  pub assigned_node : String
  pub message_id : String

unfoldable pub job_status_tuple : JobStatusCommand → StatusTuple
job_status_tuple (job_accepted j node i) = record {
  job_id = j;
  status = "accepted";
  assigned_node = node;
  message_id = i;
}
job_status_tuple (job_started j node i) = record {
  job_id = j;
  status = "started";
  assigned_node = node;
  message_id = i;
}
job_status_tuple (job_completed j node code i) = record {
  job_id = j;
  status = "completed";
  assigned_node = node;
  message_id = i;
}
job_status_tuple (job_failed j node error i) = record {
  job_id = j;
  status = "failed";
  assigned_node = node;
  message_id = i;
}

-- The instant at which a message was first seen, and what it told.
pub record Seen : Type 0 where
  pub timestamp : ℕ
  pub content : StatusTuple

-- `acks`: the messages `JobStatusAck` sent.
pub record StatusNode : Type 0 where
  pub manager : JobManager
  pub seen_cache : Dict Seen
  pub acks : List StatusTuple

-- Ten minutes.
abbrev pub dedup_cache_ttl : ℕ
dedup_cache_ttl = 600 * 1000000000

-- `cache.retain(...)`
unfoldable pub clean_cache : ℕ → Dict Seen → Dict Seen
clean_cache now cache =
    keep (λ (entry : String × Seen). ltb (now - entry.1.timestamp) dedup_cache_ttl) cache

-- `if let Some(mut job) = job_manager.get_job(&job_id)`
unfoldable pub note_acceptance :
    Codec → Bool → Clock → String → String → Option JobInstance → JobManager → JobManager
note_acceptance json writable clock job_id node none m = m
note_acceptance json writable clock job_id node (some job) m =
    update_job_assignment json writable clock job_id node m

-- What the handlers do to the table of jobs.
unfoldable pub apply_status : Codec → Bool → Clock → JobStatusCommand → JobManager → JobManager
unfolding note_acceptance
apply_status json writable clock (job_accepted j node i) m =
    note_acceptance json writable clock j node (get_job j m) m
apply_status json writable clock (job_started j node i) m = start_job json writable clock j m
apply_status json writable clock (job_completed j node code i) m =
    complete_job json writable clock j code m
apply_status json writable clock (job_failed j node error i) m =
    fail_job json writable clock j error m

-- The deduplication, and the handler of a message that is new. `now` is the instant.
unfoldable pub handle_status : Codec → Bool → Clock → ℕ → JobStatusCommand → StatusNode → StatusNode
unfolding job_status_tuple clean_cache apply_status
handle_status json writable clock now cmd n =
    let t = job_status_tuple cmd in
    let cache = clean_cache now n.seen_cache in
    if is_some (Dict.get cache t.message_id)
    then record n { seen_cache = cache; acks = n.acks ++ t ∷ [] }
    else record {
      manager = apply_status json writable clock cmd n.manager;
      seen_cache = Dict.insert t.message_id (record { timestamp = now; content = t }) cache;
      acks = n.acks ++ t ∷ [];
    }

-- A message with what surrounds its delivery.
pub record Delivery : Type 0 where
  pub writable : Bool
  pub clock : Clock
  pub instant : ℕ
  pub command : JobStatusCommand

unfoldable pub deliver_each : Codec → List Delivery → StatusNode → StatusNode
unfolding handle_status
deliver_each json [] n = n
deliver_each json (d ∷ ds) n =
    deliver_each json ds (handle_status json d.writable d.clock d.instant d.command n)
