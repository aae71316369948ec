-- ===== src/Execution/Jobs.antt =====
-- `execute_oneshot_job_with_broadcast` and `execute_service_job` of crates/agent/src/p2p/jobs.rs. The
-- two help texts of crates/agent/src/policy.rs, which depend on the system, are parameters.
pub mod Outcome
pub mod Revival
pub mod Refused
use peer_deploy.Prelude.{
  ℕ, String, Bool, true, false, Option, none, some, List, [], ◌∷◌, ◌++◌, if◌then◌else◌,
}
use peer_deploy.Prelude.Int.{ℤ, pos}
use peer_deploy.Prelude.Outcome.{Result, ok, err}
use peer_deploy.Common.Job.{JobSpec, JobRuntime, wasm, native, qemu}
use peer_deploy.JobManager.Operations.{complete_job, fail_job, add_job_log, unregister_running_job}
use peer_deploy.P2p.Status.{JobStatusCommand, job_completed, job_failed}
use peer_deploy.Execution.Site.{Worker, Site, Task}
use peer_deploy.Execution.Runs.{execute_wasm_job, execute_native_job, execute_qemu_job}

-- `policy_enable_help()`, and the error when no emulator is found.
pub record Help : Type 0 where
  pub enable : String
  pub missing : Option String → String

module _ (w : Worker) (help : Help) (job_id : String) (job : JobSpec) where
  -- The match on the runtime.
  unfoldable pub execute : Option Bool → JobRuntime → Task String
  unfolding execute_wasm_job execute_native_job execute_qemu_job
  execute cancel_rx (wasm source sha256_hex memory_mb fuel epoch_ms mounts) =
      execute_wasm_job w job_id job source sha256_hex memory_mb fuel epoch_ms mounts cancel_rx
  execute cancel_rx (native binary sha256_hex args env) =
      execute_native_job w job_id job binary sha256_hex args env cancel_rx help.enable
  execute cancel_rx (qemu binary sha256_hex args env target_platform qemu_binary) =
      execute_qemu_job w job_id job binary sha256_hex args env target_platform qemu_binary cancel_rx
        help.enable (help.missing target_platform)

  -- The match on the result of a one-shot run; `uuid` is the new message's id.
  unfoldable pub finish_oneshot : String → Result String String → Site → Site
  finish_oneshot uuid (ok success_msg) s = record s {
    manager = complete_job w.json (w.writable 0) (w.clock 0) job_id (pos 0) s.manager;
    broadcasts = s.broadcasts ++ job_completed job_id w.node_id (pos 0) uuid ∷ [];
    reports = s.reports ++ ok success_msg ∷ [];
  }
  finish_oneshot uuid (err error_msg) s = record s {
    manager = fail_job w.json (w.writable 0) (w.clock 0) job_id error_msg s.manager;
    broadcasts = s.broadcasts ++ job_failed job_id w.node_id error_msg uuid ∷ [];
    reports = s.reports ++ err error_msg ∷ [];
  }

  -- `none` is a panic, which ends the task with the job left running.
  unfoldable pub execute_oneshot_job_with_broadcast : String → Site → Option Site
  unfolding execute finish_oneshot
  execute_oneshot_job_with_broadcast uuid s = elim (execute none job.runtime s) [
    | none ↦ none
    | some (r, s') ↦ some (finish_oneshot uuid r s')
  ]

  unfoldable pub finish_service : Result String String → Site → Site
  finish_service (ok success_msg) s = record s {
    manager =
        complete_job w.json (w.writable 0) (w.clock 0) job_id (pos 0)
          (add_job_log (w.clock 4) job_id "info" "Service job completed normally" s.manager);
    reports = s.reports ++ ok success_msg ∷ [];
  }
  finish_service (err error_msg) s = record s {
    manager = fail_job w.json (w.writable 0) (w.clock 0) job_id error_msg s.manager;
    reports = s.reports ++ err error_msg ∷ [];
  }

  -- `cancelled` tells whether the cancellation comes before the end of the run.
  unfoldable pub execute_service_job : Bool → Site → Option Site
  unfolding execute finish_service
  execute_service_job cancelled s = elim (execute (some cancelled) job.runtime s) [
    | none ↦ none
    | some (r, s') ↦
        let done = finish_service r s' in
        some (record done { manager = (unregister_running_job job_id done.manager).1 })
  ]
