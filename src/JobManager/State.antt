-- ===== src/JobManager/State.antt =====
-- The state of `JobManager` in crates/agent/src/job_manager.rs, `mark_update`, `save_to_disk` and
-- `load_from_disk`. The tables of tasks and channels of tokio are held as numbers, and what is sent
-- through them is a list of signals. The JSON text of serde_json is a parameter.
use peer_deploy.Prelude.{
  ℕ, String, ◌≡◌, arith, Bool, true, false, Option, none, some, List, [], ◌∷◌, ◌==◌, str_eq,
  if◌then◌else◌,
}
use peer_deploy.Prelude.Dict.{Dict}
use peer_deploy.Common.Job.{JobInstance}

pub record JobManagerState : Type 0 where
  pub jobs : Dict JobInstance
  pub next_id : ℕ

-- `JobManagerState::default`
abbrev pub default : JobManagerState
default = record { jobs = []; next_id = 1 }

pub record RunningJob : Type 0 where
  pub handle : ℕ
  pub cancel_tx : ℕ

-- What `cancel_job` does to a running job.
pub data Signal : Type 0 where
  cancel_sent aborted : ℕ → Signal

-- serde_json on `JobManagerState`: what it writes, it reads back. `torn` is what a failed write leaves
-- of the file, by the file before and the text that was to be written.
pub record Codec : Type 0 where
  pub encode : JobManagerState → Option String
  pub decode : String → Option JobManagerState
  pub torn : Option String → String → Option String
  pub decode-encode :
      (s : JobManagerState) (content : String) → encode s ≡ some content → decode content ≡ some s

pub record JobManager : Type 0 where
  pub state : JobManagerState
  pub running_jobs : Dict RunningJob
  pub node_id : String
  pub last_update : ℕ
  -- the text of jobs.json, if the file exists
  pub jobs_file : Option String
  pub signals : List Signal

-- `JobManager::new`, on the file that is there and the reading of the clock.
abbrev pub new_manager : Option String → String → ℕ → JobManager
new_manager jobs_file node_id now = record {
  state = default;
  running_jobs = [];
  node_id = node_id;
  last_update = now;
  jobs_file = jobs_file;
  signals = [];
}

unfoldable pub mark_update : ℕ → JobManager → JobManager
mark_update now m = record m { last_update = now }

-- `writable` tells whether `tokio::fs::write` succeeds. The flag is whether the call returned `Ok`.
unfoldable pub save_to_disk : Codec → Bool → JobManager → Bool × JobManager
save_to_disk json writable m = elim (json.encode m.state) [
  | none ↦ (false, m)
  | some content ↦
      if writable
      then (true, record m { jobs_file = some content })
      else (false, record m { jobs_file = json.torn m.jobs_file content })
]

-- The callers only log a failure.
abbrev pub try_save : Codec → Bool → JobManager → JobManager
try_save json writable m = (save_to_disk json writable m).1

-- Saving changes the file only.
pub state-try_save :
    (json : Codec) (w : Bool) (m : JobManager) → (try_save json w m).state ≡ m.state
unfolding save_to_disk
state-try_save json w m = ground arith

-- The defaults that old files lack.
unfoldable pub upgrade_job : String → JobInstance → JobInstance
upgrade_job node_id job = record job {
  updated_at = if job.updated_at == 0 then job.submitted_at else job.updated_at;
  origin_node_id = if str_eq job.origin_node_id "" then node_id else job.origin_node_id;
}

unfoldable pub upgrade_jobs : String → Dict JobInstance → Dict JobInstance
unfolding upgrade_job
upgrade_jobs node_id [] = []
upgrade_jobs node_id ((k, job) ∷ jobs) = (k, upgrade_job node_id job) ∷ upgrade_jobs node_id jobs

-- `readable` tells whether `read_to_string` succeeds; a missing file is no error.
unfoldable pub load_from_disk : Codec → Bool → JobManager → Bool × JobManager
unfolding upgrade_jobs
load_from_disk json readable m = elim m.jobs_file [
  | none ↦ (true, m)
  | some content ↦ elim (if readable then json.decode content else none) [
    | none ↦ (false, m)
    | some loaded ↦
        (true, record m { state = record loaded { jobs = upgrade_jobs m.node_id loaded.jobs } })
  ]
]
