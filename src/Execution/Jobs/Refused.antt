-- ===== src/Execution/Jobs/Refused.antt =====
-- What the policy of crates/agent/src/policy.rs keeps a node from running.
use peer_deploy.Prelude.{String, ◌≡◌, refl, Bool, true, false, Option, none, some, arith}
use peer_deploy.Prelude.Dict.{is_some}
use peer_deploy.Prelude.Outcome.{err}
use peer_deploy.Common.Job.{JobSpec, JobRuntime, wasm, native, qemu}
use peer_deploy.JobManager.Operations.{get_job}
use peer_deploy.Execution.Policy.{ExecutionPolicy}
use peer_deploy.Execution.Site.{Worker, Site, Task, continue}
use peer_deploy.Execution.Runs.{permit, execute_native_job, execute_qemu_job}
use peer_deploy.Execution.Jobs.{Help, execute, finish_oneshot, execute_oneshot_job_with_broadcast}
use peer_deploy.Execution.Jobs.Outcome.{HasFailed, finish_oneshot-HasFailed}

-- What the policy lets a runtime do. WebAssembly always runs.
abbrev pub allows : ExecutionPolicy → JobRuntime → Bool
allows policy (wasm source sha256_hex memory_mb fuel epoch_ms mounts) = true
allows policy (native binary sha256_hex args env) = policy.allow_native_execution
allows policy (qemu binary sha256_hex args env target_platform qemu_binary) = policy.allow_emulation

-- The run touches nothing but the table of jobs, and its job fails.
pub record IsRefused (w : Worker) (job_id uuid : String) (s s' : Site) : Type 0 where
  pub failed : HasFailed w job_id uuid s s'
  pub not_started : s'.launched ≡ s.launched
  pub same_store : s'.store ≡ s.store
  pub same_files : s'.files ≡ s.files

continue-permit :
    {A : Type 0} (allowed : Bool) (text : String) (s : Site) (f : Unit → Task A)
    → allowed ≡ false
    → continue (permit allowed text s) f ≡ some (err text, s)
unfolding permit
continue-permit true text s f e = absurd (ground (arith, e))
continue-permit false text s f e = refl

module _ (w : Worker) (help : Help) (job_id : String) (job : JobSpec) where
  execute_refused :
      (cancel_rx : Option Bool) (runtime : JobRuntime) (s : Site)
      → allows w.policy runtime ≡ false
      → (text : String) × (execute w help job_id job cancel_rx runtime s ≡ some (err text, s))
  unfolding execute execute_native_job execute_qemu_job
  execute_refused cancel_rx (wasm source sha256_hex memory_mb fuel epoch_ms mounts) s e =
      absurd (ground (arith, e))
  execute_refused cancel_rx (native binary sha256_hex args env) s e =
      (_, continue-permit w.policy.allow_native_execution _ s _ e)
  execute_refused cancel_rx (qemu binary sha256_hex args env target_platform qemu_binary) s e =
      (_, continue-permit w.policy.allow_emulation _ s _ e)

  -- A native or emulated one-shot job that the policy does not allow always ends, as a failure that is
  -- reported and broadcast: nothing is started, stored or written. This is for a job that the
  -- node knows.
  pub execute_oneshot-IsRefused :
      (uuid : String) (s : Site)
      → allows w.policy job.runtime ≡ false
      → is_some (get_job job_id s.manager) ≡ true
      → (s' : Site) × (execute_oneshot_job_with_broadcast w help job_id job uuid s ≡ some s')
        × IsRefused w job_id uuid s s'
  unfolding execute_oneshot_job_with_broadcast finish_oneshot
  execute_oneshot-IsRefused uuid s e known =
      let (text, ended) = execute_refused none job.runtime s e in
      (
        finish_oneshot w help job_id job uuid (err text) s,
        rw (ended, execute_oneshot_job_with_broadcast) refl,
        record {
          failed = finish_oneshot-HasFailed w job_id help job uuid text s s known (record {
            manager = record { others = λ key ne. refl; known = refl };
            broadcasts = refl;
            reports = refl;
          });
          not_started = refl;
          same_store = refl;
          same_files = refl;
        },
      )
