-- ===== src/Common/Job.antt =====
-- The job types and `JobInstance` of crates/common/src/lib.rs. An operation takes the readings of
-- the clock (`SystemTime::now()`, in seconds since the epoch) that its calls get: `now i` is the
-- reading at the operation's i-th call in the order of the text.
use peer_deploy.Prelude.{ℕ, ◌+◌, String, Option, none, some, List, [], ◌∷◌, ◌++◌, if◌then◌else◌}
use peer_deploy.Prelude.Dict.{Dict}
use peer_deploy.Prelude.Int.{ℤ, is_zero}
use peer_deploy.Common.Component.{MountSpec}

pub data JobType : Type 0 where
  one_shot recurring service : JobType

pub data JobRuntime : Type 0 where
  -- source, sha256_hex, memory_mb, fuel, epoch_ms, mounts
  wasm : String → Option String → ℕ → ℕ → ℕ → Option (List MountSpec) → JobRuntime
  -- binary, sha256_hex, args, env
  native : String → Option String → List String → Dict String → JobRuntime
  -- binary, sha256_hex, args, env, target_platform, qemu_binary
  qemu :
      String
      → Option String
      → List String
      → Dict String
      → Option String
      → Option String
      → JobRuntime

pub record ArtifactSpec : Type 0 where
  pub path : String
  pub name : Option String

pub record PreStageSpec : Type 0 where
  pub source : String
  pub dest : String

pub record JobExecution : Type 0 where
  pub working_dir : Option String
  pub timeout_minutes : Option ℕ
  pub artifacts : Option (List ArtifactSpec)
  pub pre_stage : List PreStageSpec

pub record JobTargeting : Type 0 where
  pub platform : Option String
  pub tags : List String
  pub node_ids : List String

pub record JobSpec : Type 0 where
  pub name : String
  pub job_type : JobType
  pub schedule : Option String
  pub runtime : JobRuntime
  pub execution : JobExecution
  pub targeting : Option JobTargeting

pub record JobArtifact : Type 0 where
  pub name : String
  pub stored_path : String
  pub size_bytes : Option ℕ
  pub sha256_hex : Option String

pub data JobStatus : Type 0 where
  pending running completed failed cancelled : JobStatus

pub record JobLogEntry : Type 0 where
  pub timestamp : ℕ
  pub level : String
  pub message : String

pub record JobInstance : Type 0 where
  pub id : String
  pub origin_node_id : String
  pub spec : JobSpec
  pub status : JobStatus
  pub submitted_at : ℕ
  pub updated_at : ℕ
  pub started_at : Option ℕ
  pub completed_at : Option ℕ
  pub exit_code : Option ℤ
  pub error_message : Option String
  pub assigned_node : Option String
  pub logs : List JobLogEntry
  pub last_scheduled_at : Option ℕ
  pub schedule_next_at : Option ℕ
  pub artifacts : List JobArtifact

-- The readings of the clock.
abbrev pub Clock : Type 0
Clock = ℕ → ℕ

-- The readings after the first `k`.
abbrev pub later : ℕ → Clock → Clock
later k now = λ i. now (k + i)

-- `JobInstance::new`
unfoldable pub new : Clock → String → String → JobSpec → JobInstance
new now id origin_node_id spec = record {
  id = id;
  origin_node_id = origin_node_id;
  spec = spec;
  status = pending;
  submitted_at = now 0;
  updated_at = now 1;
  started_at = none;
  completed_at = none;
  exit_code = none;
  error_message = none;
  assigned_node = none;
  logs = [];
  last_scheduled_at = none;
  schedule_next_at = none;
  artifacts = [];
}

unfoldable pub start : Clock → String → JobInstance → JobInstance
start now node_id job = record job {
  status = running;
  assigned_node = some node_id;
  started_at = some (now 0);
  updated_at = now 1;
}

unfoldable pub complete : Clock → ℤ → JobInstance → JobInstance
complete now exit_code job = record job {
  status = if is_zero exit_code then completed else failed;
  exit_code = some exit_code;
  completed_at = some (now 0);
  updated_at = now 1;
}

unfoldable pub fail : Clock → String → JobInstance → JobInstance
fail now error job = record job {
  status = failed;
  error_message = some error;
  completed_at = some (now 0);
  updated_at = now 1;
}

unfoldable pub cancel : Clock → JobInstance → JobInstance
cancel now job = record job { status = cancelled; completed_at = some (now 0); updated_at = now 1 }

unfoldable pub add_log : Clock → String → String → JobInstance → JobInstance
add_log now level message job = record job {
  logs = job.logs ++ record { timestamp = now 0; level = level; message = message } ∷ [];
  updated_at = now 1;
}
