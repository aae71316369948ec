-- ===== src/Execution/Site.antt =====
-- What a run of a job works on (crates/agent/src/p2p/jobs.rs and its neighbours): the job manager, the
-- store of blobs, the files, and what the run starts and sends. A task may return early with an error
-- (`return Err`, `?`), and `none` is a panic.
use peer_deploy.Prelude.{ℕ, String, Bool, Option, none, some, List, ◌∷◌, [], ◌++◌}
use peer_deploy.Prelude.Dict.{Dict}
use peer_deploy.Prelude.Int.{ℤ}
use peer_deploy.Prelude.Outcome.{Result, ok, err}
use peer_deploy.Common.Component.{MountSpec}
use peer_deploy.Common.Job.{Clock}
use peer_deploy.JobManager.State.{JobManager, Codec}
use peer_deploy.JobManager.Operations.{add_job_log}
use peer_deploy.P2p.Status.{JobStatusCommand}
use peer_deploy.Storage.Store.{Bytes, ContentStore, Disk, get_path, put_bytes}
use peer_deploy.Execution.Policy.{ExecutionPolicy}

-- A file to run: a blob of the store under its path, or a binary of the system.
pub data Program : Type 0 where
  stored system : String → Program

-- What a run starts, or tries to start.
pub data Launch : Type 0 where
  -- the file, memory_mb, fuel, epoch_ms, mounts
  wasm_module : Program → ℕ → ℕ → ℕ → Option (List MountSpec) → Launch
  -- the file, args, env, working_dir
  native_process : Program → List String → Dict String → Option String → Launch
  -- the emulator, the file, args, env, working_dir
  qemu_process : String → Program → List String → Dict String → Option String → Launch

unfoldable pub program : Launch → Program
program (wasm_module p memory_mb fuel epoch_ms mounts) = p
program (native_process p args env dir) = p
program (qemu_process qemu p args env dir) = p

-- How a process ends: `code` is `none` if a signal ended it.
pub data ProcessEnd : Type 0 where
  spawn_failed wait_failed : String → ProcessEnd
  exited : Option ℤ → ProcessEnd

-- What the node and its surroundings bring to a run. `clock` and `writable` are for the calls of the
-- job manager, `disk` and `time` for those of the store, each by its number in the run.
pub record Worker : Type 0 where
  pub node_id : String
  pub sha256_hex : Bytes → String
  -- the answers to `file:` and HTTP sources
  pub read_source : String → Result Bytes String
  pub http_get : String → Result Bytes String
  -- what `P2PStorage::get` answers in its five seconds, if there is one
  pub storage : Option (String → Option Bytes)
  -- the error of a failed read of a blob, and of a failed write of a file
  pub read_fails : String → Option String
  pub write_fails : String → Option String
  -- the digest whose blob a path leads to, for the paths inside the store
  pub blob_at : String → Option String
  pub policy : ExecutionPolicy
  -- `which::which`
  pub which : String → Option String
  -- the end of a WebAssembly module and of a process
  pub run_module : Launch → Result Unit String
  pub run_process : Launch → ProcessEnd
  -- `data_dir.parent().unwrap().join("artifacts").join("jobs")`, whether a directory in it can be
  -- made, and whether a copy to a path goes through
  pub artifacts_root : String
  pub dir_made : String → Bool
  pub copy_works : String → Bool
  pub json : Codec
  pub clock : ℕ → Clock
  pub writable : ℕ → Bool
  pub disk : ℕ → Disk
  pub time : ℕ → ℕ

pub record Site : Type 0 where
  pub manager : JobManager
  pub store : ContentStore
  pub files : Dict Bytes
  pub launched : List Launch
  -- what is sent on `broadcast_tx` and on `tx`
  pub broadcasts : List JobStatusCommand
  pub reports : List (Result String String)

abbrev pub Task : Type 0 → Type 0
Task A = Site → Option (Result A String × Site)

-- What follows a step that has ended.
abbrev pub continue :
    {A B : Type 0}
    → Option (Result A String × Site)
    → (A → Task B)
    → Option (Result B String × Site)
continue none f = none
continue (some (ok a, s)) f = f a s
continue (some (err e, s)) f = some (err e, s)

infixl 5 ◌>>=◌ ◌>>◌
abbrev pub ◌>>=◌ : {A B : Type 0} → Task A → (A → Task B) → Task B
◌>>=◌ m f s = continue (m s) f

abbrev pub ◌>>◌ : {B : Type 0} → Task Unit → Task B → Task B
m >> n = m >>= λ _. n

abbrev pub pure : {A : Type 0} → A → Task A
pure a s = some (ok a, s)

abbrev pub raise : {A : Type 0} → String → Task A
raise e s = some (err e, s)

abbrev pub lift : {A : Type 0} → Result A String → Task A
lift r s = some (r, s)

abbrev pub modify : (Site → Site) → Task Unit
modify f s = some (ok tt, f s)

-- `store.get_path(digest)`, the store's i-th call.
unfoldable pub lookup : Worker → ℕ → String → Task (Option String)
lookup w i digest s = elim (get_path (w.disk i) (w.time i) digest s.store) [
  | none ↦ none
  | some (path, store) ↦ some (ok path, record s { store = store })
]

-- `store.put_bytes(&bytes)`, with its result as a value.
unfoldable pub put : Worker → ℕ → Bytes → Task (Result String String)
put w i bytes s = elim (put_bytes w.sha256_hex (w.disk i) (w.time i) bytes s.store) [
  | none ↦ none
  | some (r, store) ↦ some (ok r, record s { store = store })
]

-- `job_mgr.add_job_log(...)`, the manager's k-th call.
unfoldable pub log : Worker → ℕ → String → String → String → Task Unit
log w k job_id level message =
    modify λ s. record s { manager = add_job_log (w.clock k) job_id level message s.manager }

-- The start of a module or a process.
unfoldable pub launch : Launch → Task Unit
launch l = modify λ s. record s { launched = s.launched ++ l ∷ [] }
