-- ===== src/Execution/Runs.antt =====
-- `execute_wasm_job`, `execute_native_job` and `execute_qemu_job` of crates/agent/src/p2p/jobs_wasm.rs,
-- jobs_native.rs and jobs_qemu.rs. `cancel_rx` is absent, or tells whether the cancellation comes
-- before the end of the run. Log lines that do not reach the job manager are left out.
pub mod Keeps
pub mod Started
pub mod Runtimes
pub mod Verified
pub mod Erased
use peer_deploy.Prelude.{
  ℕ, zero, suc, String, Bool, true, false, Option, none, some, List, [], ◌∷◌, length, str_eq,
  if◌then◌else◌,
}
use peer_deploy.Prelude.Dict
use peer_deploy.Prelude.Dict.{Dict}
use peer_deploy.Prelude.Int.{ℤ, format_i32, is_zero}
use peer_deploy.Prelude.Outcome.{Result, ok, err}
use peer_deploy.Prelude.Text.{concat, format_u64}
use peer_deploy.Common.Component.{MountSpec}
use peer_deploy.Common.Job.{JobSpec, JobArtifact, JobInstance, ArtifactSpec, later}
use peer_deploy.JobManager.Operations.{add_job_artifact, get_job, unwrap_or}
use peer_deploy.JobManager.Artifacts.{is_absolute, join, stage_artifacts}
use peer_deploy.Storage.Store.{Bytes}
use peer_deploy.Execution.Site.{
  Worker, Site, Task, Program, stored, system, Launch, wasm_module, native_process, qemu_process,
  ProcessEnd, spawn_failed, wait_failed, exited, ◌>>=◌, ◌>>◌, pure, raise, modify, log, launch,
}
use peer_deploy.Execution.Qemu.{resolve_qemu_binary}
use peer_deploy.Execution.Staging.{stage_bytes, check_digest, pre_stage, store_binary}

-- `meta.and_then(|m| if m.is_file() { Some(m.len()) } else { None })`
abbrev pub file_size : Option Bytes → Option ℕ
file_size none = none
file_size (some bytes) = some (length bytes)

unfoldable pub artifact_of : Dict Bytes → ArtifactSpec → JobArtifact
artifact_of files art = record {
  name = unwrap_or art.name art.path;
  stored_path = art.path;
  size_bytes = file_size (Dict.get files art.path);
  sha256_hex = none;
}

-- `cmd.args` and so on have no result; `{:?}` of `status.code()`.
unfoldable pub format_code : Option ℤ → String
format_code none = "None"
format_code (some code) = concat ("Some(" ∷ format_i32 code ∷ ")" ∷ [])

-- `status.success()`
unfoldable pub success : Option ℤ → Bool
success none = false
success (some code) = is_zero code

-- The texts of a log line and of an error.
abbrev pub wasm_text : ℕ → ℕ → ℕ → String
wasm_text memory_mb fuel epoch_ms = concat (
    "Executing WASM with "
    ∷ format_u64 memory_mb
    ∷ "MB memory, "
    ∷ format_u64 fuel
    ∷ " fuel, "
    ∷ format_u64 epoch_ms
    ∷ "ms epoch"
    ∷ [])

abbrev pub disabled_text : String → String → String → String
disabled_text what name help = concat ("job failed: " ∷ what ∷ name ∷ ". " ∷ help ∷ [])

-- `if !policy.allow...`, with the text of the error.
unfoldable pub permit : Bool → String → Task Unit
permit true text = pure tt
permit false text = raise text

unfoldable pub found_qemu : String → Option String → Task String
found_qemu text (some path) = pure path
found_qemu text none = raise text

module _ (w : Worker) (job_id : String) (job : JobSpec) where
  -- The loop over the artifacts of the spec; the manager's calls have the numbers from `k` on.
  unfoldable pub capture_each : ℕ → List ArtifactSpec → Site → Site
  unfolding artifact_of
  capture_each k [] s = s
  capture_each k (art ∷ arts) s = capture_each (suc k) arts (record s {
    manager =
        add_job_artifact w.json (w.writable k) (w.clock k) job_id (artifact_of s.files art)
          s.manager;
  })

  -- The call of `stage_artifacts`, for a job that is still known.
  unfoldable pub stage_known : Option JobInstance → Site → Site
  unfolding join
  stage_known none s = s
  stage_known (some instance_) s =
      let (files, m) =
        stage_artifacts w.sha256_hex w.copy_works w.artifacts_root (later 1 (w.clock 6)) job_id
          (w.dir_made (join w.artifacts_root job_id)) (w.clock 6 0) instance_.artifacts
          (s.files, s.manager) in
      record s { files = files; manager = m }

  unfoldable pub capture : Option (List ArtifactSpec) → Site → Site
  unfolding capture_each stage_known
  capture none s = s
  capture (some arts) s =
      let s' = capture_each 7 arts s in stage_known (get_job job_id s'.manager) s'

  unfoldable pub job_ok : Task String
  unfolding capture
  job_ok = do modify (capture job.execution.artifacts); pure (concat ("job ok: " ∷ job.name ∷ []))

  unfoldable pub end_module : Result Unit String → Task String
  unfolding job_ok
  end_module (ok _) = job_ok
  end_module (err e) = raise (concat ("job error: " ∷ job.name ∷ ": " ∷ e ∷ []))

  -- `select!` between the run and the cancellation.
  unfoldable pub run_module : Option Bool → Launch → Task String
  unfolding end_module log launch
  run_module (some true) l = do
    launch l
    log w 5 job_id "warn" "Service job cancelled during execution"
    raise "Service job cancelled"
  run_module (some false) l = do launch l; end_module (w.run_module l)
  run_module none l = do launch l; end_module (w.run_module l)

  -- `kind` is `native` or `qemu`.
  unfoldable pub end_process : String → ProcessEnd → Task String
  unfolding job_ok success format_code
  end_process kind (spawn_failed e) = raise e
  end_process kind (wait_failed e) = raise e
  end_process kind (exited code) =
      if success code
      then job_ok
      else raise
          (concat ("job error: " ∷ job.name ∷ ": " ∷ kind ∷ " exit code " ∷ format_code code ∷ []))

  -- A process that is spawned can be killed by the cancellation.
  unfoldable pub cancelled_process : ProcessEnd → Task String
  cancelled_process (spawn_failed e) = raise e
  cancelled_process (wait_failed e) = raise "Job cancelled"
  cancelled_process (exited code) = raise "Job cancelled"

  unfoldable pub run_process : String → Option Bool → Launch → Task String
  unfolding end_process cancelled_process launch
  run_process kind (some true) l = do launch l; cancelled_process (w.run_process l)
  run_process kind (some false) l = do launch l; end_process kind (w.run_process l)
  run_process kind none l = do launch l; end_process kind (w.run_process l)

  unfoldable pub execute_wasm_job :
      String → Option String → ℕ → ℕ → ℕ → Option (List MountSpec) → Option Bool → Task String
  unfolding log run_module stage_bytes check_digest pre_stage store_binary
  execute_wasm_job source sha256_hex memory_mb fuel epoch_ms mounts cancel_rx = do
    log w 1 job_id "info" (concat ("Staging WASM from " ∷ source ∷ []))
    bytes ← stage_bytes w source sha256_hex
    check_digest w sha256_hex bytes
    pre_stage w 4 job.execution.pre_stage
    path ← store_binary w bytes
    log w 2 job_id "info" (wasm_text memory_mb fuel epoch_ms)
    run_module cancel_rx (wasm_module (stored path) memory_mb fuel epoch_ms mounts)

  -- A system binary is used as it is; any other is staged.
  unfoldable pub native_program : String → Option String → Task Program
  unfolding log stage_bytes check_digest store_binary
  native_program binary sha256_hex =
      if is_absolute binary
      then (do
        log w 1 job_id "info" (concat ("Using system binary: " ∷ binary ∷ []))
        pure (system binary))
      else (do
        log w 1 job_id "info" (concat ("Staging native from " ∷ binary ∷ []))
        bytes ← stage_bytes w binary sha256_hex
        check_digest w sha256_hex bytes
        path ← store_binary w bytes
        pure (stored path))

  unfoldable pub execute_native_job :
      String → Option String → List String → Dict String → Option Bool → String → Task String
  unfolding permit native_program log pre_stage run_process
  execute_native_job binary sha256_hex args env cancel_rx help = do
    permit w.policy.allow_native_execution
        (disabled_text "native execution is disabled by policy for job " job.name help)
    p ← native_program binary sha256_hex
    log w 2 job_id "info" "Executing native binary"
    pre_stage w 4 job.execution.pre_stage
    run_process "native" cancel_rx (native_process p args env job.execution.working_dir)

  unfoldable pub chosen_qemu : Option String → Option String → Option String
  unfolding resolve_qemu_binary
  chosen_qemu (some path) target_platform = some path
  chosen_qemu none target_platform = resolve_qemu_binary w.which target_platform

  -- `help` is the text of `policy_enable_help`, `missing` that of the last error.
  unfoldable pub execute_qemu_job :
      String
      → Option String
      → List String
      → Dict String
      → Option String
      → Option String
      → Option Bool
      → String
      → String
      → Task String
  unfolding permit log stage_bytes check_digest pre_stage store_binary chosen_qemu found_qemu
      run_process
  execute_qemu_job binary sha256_hex args env target_platform qemu_binary cancel_rx help missing =
      do
        permit w.policy.allow_emulation
            (disabled_text "QEMU emulation is disabled by policy for job " job.name help)
        log w 1 job_id "info" (concat ("Staging QEMU target from " ∷ binary ∷ []))
        bytes ← stage_bytes w binary sha256_hex
        check_digest w sha256_hex bytes
        pre_stage w 4 job.execution.pre_stage
        path ← store_binary w bytes
        qemu ← found_qemu missing (chosen_qemu qemu_binary target_platform)
        log w 2 job_id "info" "Executing under QEMU emulation"
        run_process "qemu" cancel_rx
            (qemu_process qemu (stored path) args env job.execution.working_dir)
