-- ===== src/Execution/Runs/Verified.antt =====
-- What the runs of crates/agent/src/p2p/jobs_wasm.rs, jobs_native.rs and jobs_qemu.rs start, for a job
-- that declares a digest.
use peer_deploy.Prelude.{ℕ, String, ◌≡◌, Bool, Option, none, some, [], arith}
use mathlib.Core.Path.{subst}
use peer_deploy.Prelude.Outcome.{Result, ok, err}
use peer_deploy.Common.Job.{JobSpec, JobRuntime, wasm, native, qemu}
use peer_deploy.P2p.Submit.{job_digest}
use peer_deploy.Execution.Site.{Worker, Site}
use peer_deploy.Storage.Integrity.Steps.{IsIntact}
use peer_deploy.Execution.Staging.Lookup.{IsIdle}
use peer_deploy.Execution.Staging.Idle.{IsOutside}
use peer_deploy.Execution.Jobs.{Help, execute}
use peer_deploy.Execution.Logic.{After}
use peer_deploy.Execution.Runs.Started.{IsVerified}
use peer_deploy.Execution.Runs.Runtimes.{
  execute_wasm_job-IsVerified, execute_native_job-IsVerified, execute_qemu_job-IsVerified,
}

module _ (w : Worker) (help : Help) (job_id : String) (job : JobSpec)
    (cancel_rx : Option Bool) where
  execute_each-IsVerified :
      (runtime : JobRuntime) (hex : String) (s : Site)
      → job_digest runtime ≡ some hex
      → IsOutside w job.execution.pre_stage
      → IsIdle w s
      → After
          (IsVerified w runtime hex)
          (λ a s'. IsVerified w runtime hex s')
          (execute w help job_id job cancel_rx runtime s)
  unfolding execute job_digest
  execute_each-IsVerified (wasm source sha256_hex memory_mb fuel epoch_ms mounts) hex s e outside
        h =
      rw (e) (
        execute_wasm_job-IsVerified w (wasm source (some hex) memory_mb fuel epoch_ms mounts) hex
          job_id job outside source memory_mb fuel epoch_ms mounts cancel_rx s h)
  execute_each-IsVerified (native binary sha256_hex args env) hex s e outside h = rw (e) (
      execute_native_job-IsVerified w (native binary (some hex) args env) hex job_id job outside
        binary args env cancel_rx help.enable s (λ path p q. (p, q)) h)
  execute_each-IsVerified (qemu binary sha256_hex args env target_platform qemu_binary) hex s e
        outside h =
      rw (e) (
        execute_qemu_job-IsVerified w (qemu binary (some hex) args env target_platform qemu_binary)
          hex job_id job outside binary args env target_platform qemu_binary cancel_rx help.enable
          (help.missing target_platform) s h)

  ends :
      {A : Type 0} (P : Site → Type 0) (o : Option (Result A String × Site)) (r : Result A String)
      (s : Site)
      → o ≡ some (r, s)
      → After P (λ a s'. P s') o
      → P s
  ends P none r s e h = absurd (ground (arith, e))
  ends P (some (ok a, s')) r s e h = subst P (ground (arith, e)) h
  ends P (some (err x, s')) r s e h = subst P (ground (arith, e)) h

  -- A job that declares a digest starts at most one program, whatever its runtime, and however the
  -- fetch, the peers and the policy answer. What it starts is, when it starts, a blob of the store
  -- whose bytes have the declared digest, or the binary of the system that a native job names by its
  -- absolute path. This is for a store whose blobs stand under their digests, for runs that end
  -- without a panic, for attachments whose destinations are outside of the store, and for a disk on
  -- which a failed write of a blob leaves no file.
  pub execute-IsVerified :
      (hex : String) (s s' : Site) (r : Result String String)
      → job_digest job.runtime ≡ some hex
      → IsIntact w.sha256_hex s.store
      → s.launched ≡ []
      → ((i : ℕ) → (w.disk i).blob_left ≡ none)
      → IsOutside w job.execution.pre_stage
      → execute w help job_id job cancel_rx job.runtime s ≡ some (r, s')
      → IsVerified w job.runtime hex s'
  execute-IsVerified hex s s' r e intact none_started clean outside ran =
      ends (IsVerified w job.runtime hex) (execute w help job_id job cancel_rx job.runtime s) r s'
        ran
        (execute_each-IsVerified job.runtime hex s e outside
          (record { intact = intact; none_started = none_started; clean = clean }))
