-- ===== src/P2p/Sync.antt =====
-- The messages that spread the jobs of a node in `run_agent` of crates/agent/src/p2p/mod.rs: the tick with its pace,
-- and the answers to a request and to a new connection. The hash of the standard library is a parameter.
pub mod Quiet
pub mod Erasure
mod Tests
use Prim.Native.Nat.{min}
use peer_deploy.Prelude.{
  ℕ, ◌+◌, ◌-◌, ◌*◌, ◌^◌, String, Bool, false, Option, none, some, List, [], ◌∷◌, ◌++◌, leb, ◌==◌,
  take, map, if◌then◌else◌,
}
use peer_deploy.Prelude.Int.{ℤ}
use peer_deploy.Common.Job.{JobInstance, JobStatus}
use peer_deploy.JobManager.State.{JobManager, Codec}
use peer_deploy.JobManager.Listing.{sort_desc, list_jobs}
use peer_deploy.JobManager.Sync.{sync_jobs}

pub record SyncNode : Type 0 where
  pub job_manager : JobManager
  pub job_sync_interval : ℕ
  pub last_job_sync : ℕ
  pub last_job_state_hash : Option ℕ
  -- the lists of the messages `Command::SyncJobs`
  pub published : List (List JobInstance)

abbrev pub first_interval : ℕ
first_interval = 5

-- The loop's state before the first tick.
unfoldable pub start_sync : JobManager → SyncNode
start_sync m = record {
  job_manager = m;
  job_sync_interval = first_interval;
  last_job_sync = m.last_update;
  last_job_state_hash = none;
  published = [];
}

abbrev pub usize_max : ℕ
usize_max = 2 ^ 64 - 1

-- `jobs.sort_by(|a, b| b.updated_at.cmp(&a.updated_at))`, and the first of them.
unfoldable pub latest_jobs : ℕ → JobManager → List JobInstance
unfolding sort_desc list_jobs
latest_jobs limit m = take limit (sort_desc (λ job. job.updated_at) (list_jobs none usize_max m))

-- `j.logs.clear(); j.artifacts.clear()`
abbrev pub cleared : JobInstance → JobInstance
cleared job = record job { logs = []; artifacts = [] }

-- The jobs of a tick.
unfoldable pub trimmed : JobManager → List JobInstance
unfolding latest_jobs
trimmed m = map cleared (latest_jobs 10 m)

-- The jobs for `Command::JobSyncRequest`, and for a peer that has connected: these keep their artifacts.
unfoldable pub trimmed_reply : JobManager → List JobInstance
unfolding latest_jobs
trimmed_reply m = map (λ (job : JobInstance). record job { logs = [] }) (latest_jobs 32 m)

unfoldable pub handle_sync_request : SyncNode → SyncNode
unfolding trimmed_reply
handle_sync_request n = record n { published = n.published ++ trimmed_reply n.job_manager ∷ [] }

-- What is hashed of a job.
abbrev pub Hashed : Type 0
Hashed = String × JobStatus × ℕ × Option String × Option ℤ

abbrev pub hashed : JobInstance → Hashed
hashed job = (job.id, job.status, job.updated_at, job.assigned_node, job.exit_code)

-- `last_job_state_hash.map_or(true, |last| last != current_hash)`
unfoldable pub same_hash : Option ℕ → ℕ → Bool
same_hash none current_hash = false
same_hash (some last) current_hash = last == current_hash

-- The interval of the ticks: twice as long if no job has changed, and fifteen seconds if one has.
unfoldable pub adjust_pace : SyncNode → SyncNode
adjust_pace n =
    if leb n.job_manager.last_update n.last_job_sync
    then record n { job_sync_interval = min (n.job_sync_interval * 2) 300 }
    else record n { job_sync_interval = 15; last_job_sync = n.job_manager.last_update }

module _ (hash : List Hashed → ℕ) where
  -- `if !trimmed.is_empty()`
  unfoldable pub broadcast : List JobInstance → SyncNode → SyncNode
  unfolding same_hash
  broadcast [] n = n
  broadcast (job ∷ jobs) n =
      let current_hash = hash (map hashed (job ∷ jobs)) in
      if same_hash n.last_job_state_hash current_hash then n else record n {
        published = n.published ++ (job ∷ jobs) ∷ [];
        last_job_state_hash = some current_hash;
      }

  -- `job_sync_tick`
  unfoldable pub job_sync_tick : SyncNode → SyncNode
  unfolding broadcast trimmed adjust_pace
  job_sync_tick n = adjust_pace (broadcast (trimmed n.job_manager) n)

-- `Command::SyncJobs` at another node, for each of the messages.
unfoldable pub deliver_jobs : Codec → Bool → List (List JobInstance) → JobManager → JobManager
unfolding sync_jobs
deliver_jobs json writable [] m = m
deliver_jobs json writable (jobs ∷ messages) m =
    deliver_jobs json writable messages (sync_jobs json writable jobs m)
