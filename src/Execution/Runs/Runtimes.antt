-- ===== src/Execution/Runs/Runtimes.antt =====
-- What each of the three runs of crates/agent/src/p2p/jobs_wasm.rs, jobs_native.rs and jobs_qemu.rs start, for a job
-- that declares a digest.
use peer_deploy.Prelude.{
  ℕ, String, ◌≡◌, refl, ap, ◌∙◌, Bool, true, false, Option, none, some, List, inl, inr, Bool-cases,
}
use peer_deploy.Prelude.Dict
use peer_deploy.Prelude.Dict.{Dict}
use peer_deploy.Prelude.Outcome.{Result, ok, err}
use peer_deploy.Common.Component.{MountSpec}
use peer_deploy.Common.Job.{JobSpec, JobRuntime}
use peer_deploy.JobManager.State.{JobManager}
use peer_deploy.JobManager.Artifacts.{is_absolute}
use peer_deploy.Storage.Store.{Bytes}
use peer_deploy.Execution.Site.{
  Worker, Site, Task, Program, stored, system, program, wasm_module, native_process, qemu_process,
  continue, log,
}
use peer_deploy.Execution.Staging.{stage_bytes, check_digest, pre_stage, store_binary}
use peer_deploy.Execution.Staging.Lookup.{IsIdle}
use peer_deploy.Execution.Staging.Idle.{
  stage_bytes-IsIdle, check_digest-IsIdle, IdleWith, IsOutside, pre_stage-IdleWith, Stored,
  store_binary-Stored,
}
use peer_deploy.Execution.Runs.{
  permit, execute_wasm_job, native_program, execute_native_job, found_qemu, chosen_qemu,
  execute_qemu_job,
}
use peer_deploy.Execution.Logic.{After, After-continue}
use peer_deploy.Execution.Runs.Started.{
  Names, IsDeclared, IsVerified, IsIdle-IsVerified, run_module-IsVerified, run_process-IsVerified,
}

module _ (w : Worker) (runtime : JobRuntime) (hex : String) where
  abbrev Verified : Site → Type 0
  Verified = IsVerified w runtime hex

  module _ (job_id : String) (job : JobSpec) (outside : IsOutside w job.execution.pre_stage) where
    -- A step that starts nothing, and what follows it.
    then_lem :
        {A B : Type 0} (I : Site → Type 0) (Q : A → Site → Type 0)
        (r : Option (Result A String × Site)) (f : A → Task B)
        → ((s : Site) → I s → IsIdle w s)
        → After I Q r
        → ((a : A) (s : Site) → Q a s → After Verified (λ b s'. Verified s') (f a s))
        → After Verified (λ b s'. Verified s') (continue r f)
    then_lem I Q none f i h k = tt
    then_lem I Q (some (ok a, s)) f i h k = k a s h
    then_lem I Q (some (err e, s)) f i h k = IsIdle-IsVerified w runtime hex s (i s h)

    -- Two forms of it: after a step that leaves the site idle, and after the attachments.
    idle_lem :
        {A B : Type 0} (Q : A → Site → Type 0) (r : Option (Result A String × Site))
        (f : A → Task B)
        → After (IsIdle w) Q r
        → ((a : A) (s : Site) → Q a s → After Verified (λ b s'. Verified s') (f a s))
        → After Verified (λ b s'. Verified s') (continue r f)
    idle_lem Q r f = then_lem (IsIdle w) Q r f (λ s h. h)

    attached_lem :
        {B : Type 0} (s : Site) (f : Unit → Task B)
        → IsIdle w s
        → ((s' : Site)
            → IsIdle w s'
            → s'.store.blobs ≡ s.store.blobs
            → After Verified (λ b s''. Verified s'') (f tt s'))
        → After Verified
            (λ b s'. Verified s')
            (continue (pre_stage w 4 job.execution.pre_stage s) f)
    attached_lem s f h k =
        then_lem (IdleWith w s.store.blobs) (λ a s'. IdleWith w s.store.blobs s')
          (pre_stage w 4 job.execution.pre_stage s) f (λ s' q. q.0)
          (pre_stage-IdleWith w 4 job.execution.pre_stage s outside h) (λ a s' q. k s' q.0 q.1)

    same_blobs :
        (p : Program) (s s' : Site)
        → s'.store.blobs ≡ s.store.blobs
        → IsDeclared w.sha256_hex hex runtime s.store p
        → IsDeclared w.sha256_hex hex runtime s'.store p
    same_blobs (stored path) s s' e d = (d.0, ap (λ b. Dict.get b path) e ∙ d.1, d.2)
    same_blobs (system path) s s' e d = d

    Stored-IsDeclared :
        (bytes : Bytes) (path : String) (s : Site)
        → w.sha256_hex bytes ≡ hex
        → Stored w bytes path s
        → IsDeclared w.sha256_hex hex runtime s.store (stored path)
    Stored-IsDeclared bytes path s e h = (h.blob, h.present, h.same_digest ∙ e)

    moved : (m : JobManager) (s : Site) → IsIdle w s → IsIdle w (record s { manager = m })
    moved m s h = record { intact = h.intact; none_started = h.none_started; clean = h.clean }

    pub execute_wasm_job-IsVerified :
        (source : String) (memory_mb fuel epoch_ms : ℕ) (mounts : Option (List MountSpec))
        (cancel_rx : Option Bool) (s : Site)
        → IsIdle w s
        → After Verified
            (λ a s'. Verified s')
            (execute_wasm_job w job_id job source
              (some hex)
              memory_mb
              fuel
              epoch_ms
              mounts
              cancel_rx
              s)
    unfolding execute_wasm_job log program
    execute_wasm_job-IsVerified source memory_mb fuel epoch_ms mounts cancel_rx s h =
        idle_lem (λ a s'. IsIdle w s') (stage_bytes w source (some hex) _) _
          (stage_bytes-IsIdle w source (some hex) _ (moved _ s h))
          λ bytes s1 h1.
            idle_lem _ (check_digest w (some hex) bytes s1) _
              (check_digest-IsIdle w hex bytes s1 h1)
              λ _ s2 h2. attached_lem s2 _ h2.0 λ s3 h3 _.
                idle_lem (λ p s'. Stored w bytes p s') (store_binary w bytes s3) _
                  (store_binary-Stored w bytes s3 h3)
                  λ path s4 h4.
                    run_module-IsVerified w runtime hex job_id job cancel_rx
                      (wasm_module (stored path) memory_mb fuel epoch_ms mounts) _
                      (moved _ s4 h4.idle) (Stored-IsDeclared bytes path s4 h2.1 h4)

    permit-IsVerified :
        (allowed : Bool) (text : String) (s : Site) (f : Unit → Task String)
        → IsIdle w s
        → After Verified (λ a s'. Verified s') (f tt s)
        → After Verified (λ a s'. Verified s') (continue (permit allowed text s) f)
    unfolding permit
    permit-IsVerified true text s f h k = k
    permit-IsVerified false text s f h k = IsIdle-IsVerified w runtime hex s h

    -- The program of a native job is the declared binary, or one of the system that the job names.
    native_program-IsDeclared :
        (binary : String) (s : Site)
        → ((path : String) → path ≡ binary → is_absolute binary ≡ true → Names runtime path)
        → IsIdle w s
        → After
            (IsIdle w)
            (λ p s'. IsIdle w s' × IsDeclared w.sha256_hex hex runtime s'.store p)
            (native_program w job_id job binary (some hex) s)
    unfolding native_program log
    native_program-IsDeclared binary s named h = elim (Bool-cases (is_absolute binary)) [
      | inl here ↦ rw (here) (moved _ s h, named binary refl here)
      | inr other ↦ rw (other) (
          After-continue (IsIdle w) (λ a s'. IsIdle w s') _ (stage_bytes w binary (some hex) _) _
            (stage_bytes-IsIdle w binary (some hex) _ (moved _ s h))
            λ bytes s1 h1.
              After-continue (IsIdle w) _ _ (check_digest w (some hex) bytes s1) _
                (check_digest-IsIdle w hex bytes s1 h1)
                λ _ s2 h2.
                  After-continue (IsIdle w) (λ p s'. Stored w bytes p s') _
                    (store_binary w bytes s2) _ (store_binary-Stored w bytes s2 h2.0)
                    λ path s3 h3. (h3.idle, Stored-IsDeclared bytes path s3 h2.1 h3))
    ]

    pub execute_native_job-IsVerified :
        (binary : String) (args : List String) (env : Dict String) (cancel_rx : Option Bool)
        (help : String) (s : Site)
        → ((path : String) → path ≡ binary → is_absolute binary ≡ true → Names runtime path)
        → IsIdle w s
        → After Verified
            (λ a s'. Verified s')
            (execute_native_job w job_id job binary (some hex) args env cancel_rx help s)
    unfolding execute_native_job log program
    execute_native_job-IsVerified binary args env cancel_rx help s named h =
        permit-IsVerified w.policy.allow_native_execution _ s _ h (
          idle_lem _ (native_program w job_id job binary (some hex) s) _
            (native_program-IsDeclared binary s named h)
            λ p s1 h1. attached_lem _ _ (moved _ s1 h1.0) λ s2 h2 e.
              run_process-IsVerified w runtime hex job_id job "native" cancel_rx
                (native_process p args env job.execution.working_dir) s2 h2
                (same_blobs p s1 s2 e h1.1))

    found_qemu-Stored :
        (bytes : Bytes) (path text : String) (chosen : Option String) (s : Site)
        → Stored w bytes path s
        → After (IsIdle w) (λ a s'. Stored w bytes path s') (found_qemu text chosen s)
    unfolding found_qemu
    found_qemu-Stored bytes path text none s h = h.idle
    found_qemu-Stored bytes path text (some q) s h = h

    pub execute_qemu_job-IsVerified :
        (binary : String) (args : List String) (env : Dict String)
        (target_platform qemu_binary : Option String) (cancel_rx : Option Bool)
        (help missing : String) (s : Site)
        → IsIdle w s
        → After Verified
            (λ a s'. Verified s')
            (execute_qemu_job w job_id job binary
              (some hex)
              args
              env
              target_platform
              qemu_binary
              cancel_rx
              help
              missing
              s)
    unfolding execute_qemu_job log program
    execute_qemu_job-IsVerified binary args env target_platform qemu_binary cancel_rx help missing s
          h =
        permit-IsVerified w.policy.allow_emulation _ s _ h (
          idle_lem (λ a s'. IsIdle w s') (stage_bytes w binary (some hex) _) _
            (stage_bytes-IsIdle w binary (some hex) _ (moved _ s h))
            λ bytes s1 h1.
              idle_lem _ (check_digest w (some hex) bytes s1) _
                (check_digest-IsIdle w hex bytes s1 h1)
                λ _ s2 h2. attached_lem s2 _ h2.0 λ s3 h3 _.
                  idle_lem (λ p s'. Stored w bytes p s') (store_binary w bytes s3) _
                    (store_binary-Stored w bytes s3 h3)
                    λ path s4 h4.
                      idle_lem _
                        (found_qemu missing (chosen_qemu w job_id job qemu_binary target_platform)
                          s4)
                        _ (found_qemu-Stored bytes path missing _ s4 h4)
                        λ q s5 h5.
                          run_process-IsVerified w runtime hex job_id job "qemu" cancel_rx
                            (qemu_process q (stored path) args env job.execution.working_dir) _
                            (moved _ s5 h5.idle) (Stored-IsDeclared bytes path s5 h2.1 h5))
