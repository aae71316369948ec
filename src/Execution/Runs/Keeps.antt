-- ===== src/Execution/Runs/Keeps.antt =====
-- What a whole run of crates/agent/src/p2p/jobs_wasm.rs, jobs_native.rs and jobs_qemu.rs leaves alone:
-- whatever its single steps keep.
use peer_deploy.Prelude.{
  ℕ, suc, String, All, Bool, true, false, Option, none, some, List, [], ◌∷◌, inl, inr, Bool-cases,
}
use peer_deploy.Prelude.Dict
use peer_deploy.Prelude.Dict.{Dict}
use peer_deploy.Prelude.Outcome.{Result, ok, err}
use peer_deploy.Common.Component.{MountSpec}
use peer_deploy.Common.Job.{
  JobSpec, JobArtifact, JobInstance, ArtifactSpec, JobRuntime, wasm, native, qemu,
}
use peer_deploy.JobManager.Operations.{add_job_log, add_job_artifact}
use peer_deploy.JobManager.Artifacts.{is_absolute}
use peer_deploy.Storage.Store.{Bytes, ContentStore, get_path, put_bytes}
use peer_deploy.Execution.Site.{
  Worker, Site, Task, Launch, ProcessEnd, spawn_failed, wait_failed, exited, continue, lookup, put,
  log, launch,
}
use peer_deploy.Execution.Staging.{stage_bytes, check_digest, pre_stage, store_binary}
use peer_deploy.Execution.Staging.Keeps.{
  stage_bytes-keeps, check_digest-keeps, pre_stage-keeps, store_binary-keeps,
}
use peer_deploy.Execution.Runs.{
  artifact_of, capture_each, stage_known, capture, job_ok, end_module, run_module, success,
  end_process, cancelled_process, run_process, permit, execute_wasm_job, native_program,
  execute_native_job, found_qemu, chosen_qemu, execute_qemu_job,
}
use peer_deploy.Execution.Jobs.{Help, execute}
use peer_deploy.Execution.Logic.{After, After-continue}

everywhere : {A : Type 0} (xs : List A) → All {0, 0} (λ x. Unit) xs
everywhere [] = tt
everywhere (x ∷ xs) = (tt, everywhere xs)

module _ (w : Worker) (job_id : String) (job : JobSpec) (P : Site → Type 0)
    (on_store : (s : Site) (store : ContentStore) → P s → P (record s { store = store }))
    (on_files : (s : Site) (files : Dict Bytes) → P s → P (record s { files = files }))
    (on_launch : (s : Site) (launched : List Launch) → P s → P (record s { launched = launched }))
    (on_log : (s : Site) (k : ℕ) (level message : String)
      → P s
      → P (record s { manager = add_job_log (w.clock k) job_id level message s.manager }))
    (on_artifact : (s : Site) (k : ℕ) (a : JobArtifact)
      → P s
      → P (record s {
        manager = add_job_artifact w.json (w.writable k) (w.clock k) job_id a s.manager;
      }))
    (on_stage : (s : Site) (j : JobInstance) → P s → P (stage_known w job_id job (some j) s)) where
  looked :
      {A B : Type 0} (f : A → B) (s : Site) (r : Option (A × ContentStore))
      → P s
      → After P
          (λ (b : B) s'. P s')
          (elim r [ none ↦ none | some (a, store) ↦ some (ok (f a), record s { store = store }) ])
  looked f s none h = tt
  looked f s (some (a, store)) h = on_store s store h

  lookup-keeps :
      (i : ℕ) (digest : String) (s : Site) → P s → After P (λ a s'. P s') (lookup w i digest s)
  unfolding lookup
  lookup-keeps i digest s h = looked (λ a. a) s (get_path (w.disk i) (w.time i) digest s.store) h

  put-keeps : (i : ℕ) (bytes : Bytes) (s : Site) → P s → After P (λ a s'. P s') (put w i bytes s)
  unfolding put
  put-keeps i bytes s h =
      looked (λ a. a) s (put_bytes w.sha256_hex (w.disk i) (w.time i) bytes s.store) h

  capture_each-keeps :
      (k : ℕ) (arts : List ArtifactSpec) (s : Site) → P s → P (capture_each w job_id job k arts s)
  unfolding capture_each
  capture_each-keeps k [] s h = h
  capture_each-keeps k (art ∷ arts) s h =
      capture_each-keeps (suc k) arts _ (on_artifact s k (artifact_of s.files art) h)

  stage_known-keeps :
      (known : Option JobInstance) (s : Site) → P s → P (stage_known w job_id job known s)
  unfolding stage_known
  stage_known-keeps none s h = h
  stage_known-keeps (some j) s h = on_stage s j h

  capture-keeps :
      (arts : Option (List ArtifactSpec)) (s : Site) → P s → P (capture w job_id job arts s)
  unfolding capture
  capture-keeps none s h = h
  capture-keeps (some arts) s h = stage_known-keeps _ _ (capture_each-keeps 7 arts s h)

  job_ok-keeps : (s : Site) → P s → After P (λ a s'. P s') (job_ok w job_id job s)
  unfolding job_ok
  job_ok-keeps s h = capture-keeps job.execution.artifacts s h

  end_module-keeps :
      (r : Result Unit String) (s : Site)
      → P s
      → After P (λ a s'. P s') (end_module w job_id job r s)
  unfolding end_module
  end_module-keeps (ok _) s h = job_ok-keeps s h
  end_module-keeps (err e) s h = h

  end_process-keeps :
      (kind : String) (r : ProcessEnd) (s : Site)
      → P s
      → After P (λ a s'. P s') (end_process w job_id job kind r s)
  unfolding end_process
  end_process-keeps kind (spawn_failed e) s h = h
  end_process-keeps kind (wait_failed e) s h = h
  end_process-keeps kind (exited code) s h = elim (Bool-cases (success code)) [
    | inl zero ↦ rw (zero) (job_ok-keeps s h)
    | inr other ↦ rw (other) h
  ]

  cancelled_process-keeps :
      (r : ProcessEnd) (s : Site)
      → P s
      → After P (λ a s'. P s') (cancelled_process w job_id job r s)
  unfolding cancelled_process
  cancelled_process-keeps (spawn_failed e) s h = h
  cancelled_process-keeps (wait_failed e) s h = h
  cancelled_process-keeps (exited code) s h = h

  run_module-keeps :
      (cancel_rx : Option Bool) (l : Launch) (s : Site)
      → P s
      → After P (λ a s'. P s') (run_module w job_id job cancel_rx l s)
  unfolding run_module launch log
  run_module-keeps none l s h = end_module-keeps (w.run_module l) _ (on_launch s _ h)
  run_module-keeps (some true) l s h = on_log _ 5 _ _ (on_launch s _ h)
  run_module-keeps (some false) l s h = end_module-keeps (w.run_module l) _ (on_launch s _ h)

  run_process-keeps :
      (kind : String) (cancel_rx : Option Bool) (l : Launch) (s : Site)
      → P s
      → After P (λ a s'. P s') (run_process w job_id job kind cancel_rx l s)
  unfolding run_process launch
  run_process-keeps kind none l s h = end_process-keeps kind (w.run_process l) _ (on_launch s _ h)
  run_process-keeps kind (some true) l s h =
      cancelled_process-keeps (w.run_process l) _ (on_launch s _ h)
  run_process-keeps kind (some false) l s h =
      end_process-keeps kind (w.run_process l) _ (on_launch s _ h)

  -- A sequence of tasks that keep `P`.
  then_lem :
      {A B : Type 0} (r : Option (Result A String × Site)) (f : A → Task B)
      → After P (λ a s'. P s') r
      → ((a : A) (s' : Site) → P s' → After P (λ a s'. P s') (f a s'))
      → After P (λ a s'. P s') (continue r f)
  then_lem r f h k = After-continue P (λ a s'. P s') (λ a s'. P s') r f h k

  permit-keeps :
      (allowed : Bool) (text : String) (s : Site)
      → P s
      → After P (λ a s'. P s') (permit allowed text s)
  unfolding permit
  permit-keeps true text s h = h
  permit-keeps false text s h = h

  found_qemu-keeps :
      (text : String) (path : Option String) (s : Site)
      → P s
      → After P (λ a s'. P s') (found_qemu text path s)
  unfolding found_qemu
  found_qemu-keeps text none s h = h
  found_qemu-keeps text (some path) s h = h

  staged-keeps :
      (source : String) (sha256_hex : Option String) (s : Site)
      → P s
      → After P (λ a s'. P s') (stage_bytes w source sha256_hex s)
  staged-keeps = stage_bytes-keeps w P lookup-keeps put-keeps

  binary-keeps : (bytes : Bytes) (s : Site) → P s → After P (λ a s'. P s') (store_binary w bytes s)
  binary-keeps = store_binary-keeps w P lookup-keeps put-keeps

  attached-keeps :
      (s : Site) → P s → After P (λ a s'. P s') (pre_stage w 4 job.execution.pre_stage s)
  attached-keeps s h =
      pre_stage-keeps w P lookup-keeps on_files (λ dest. Unit)
        (λ dest digest bytes s' d e k.
          on_store s' (record s'.store { blobs = Dict.insert digest bytes s'.store.blobs }) k)
        4 job.execution.pre_stage s (everywhere job.execution.pre_stage) h

  execute_wasm_job-keeps :
      (source : String) (sha256_hex : Option String) (memory_mb fuel epoch_ms : ℕ)
      (mounts : Option (List MountSpec)) (cancel_rx : Option Bool) (s : Site)
      → P s
      → After P
          (λ a s'. P s')
          (execute_wasm_job w job_id job source sha256_hex memory_mb fuel epoch_ms mounts cancel_rx
            s)
  unfolding execute_wasm_job log
  execute_wasm_job-keeps source sha256_hex memory_mb fuel epoch_ms mounts cancel_rx s h =
      then_lem (stage_bytes w source sha256_hex _) _
        (staged-keeps source sha256_hex _ (on_log s 1 _ _ h))
        λ bytes s1 h1.
          then_lem (check_digest w sha256_hex bytes s1) _
            (check_digest-keeps w P sha256_hex bytes s1 h1)
            λ _ s2 h2.
              then_lem (pre_stage w 4 job.execution.pre_stage s2) _ (attached-keeps s2 h2)
                λ _ s3 h3.
                  then_lem (store_binary w bytes s3) _ (binary-keeps bytes s3 h3)
                    λ path s4 h4. run_module-keeps cancel_rx _ _ (on_log s4 2 _ _ h4)

  native_program-keeps :
      (binary : String) (sha256_hex : Option String) (s : Site)
      → P s
      → After P (λ a s'. P s') (native_program w job_id job binary sha256_hex s)
  unfolding native_program log
  native_program-keeps binary sha256_hex s h = elim (Bool-cases (is_absolute binary)) [
    | inl here ↦ rw (here) (on_log s 1 _ _ h)
    | inr other ↦ rw (other) (
        then_lem (stage_bytes w binary sha256_hex _) _
          (staged-keeps binary sha256_hex _ (on_log s 1 _ _ h))
          λ bytes s1 h1.
            then_lem (check_digest w sha256_hex bytes s1) _
              (check_digest-keeps w P sha256_hex bytes s1 h1)
              λ _ s2 h2.
                then_lem (store_binary w bytes s2) _ (binary-keeps bytes s2 h2) λ path s3 h3. h3)
  ]

  execute_native_job-keeps :
      (binary : String) (sha256_hex : Option String) (args : List String) (env : Dict String)
      (cancel_rx : Option Bool) (help : String) (s : Site)
      → P s
      → After P
          (λ a s'. P s')
          (execute_native_job w job_id job binary sha256_hex args env cancel_rx help s)
  unfolding execute_native_job log
  execute_native_job-keeps binary sha256_hex args env cancel_rx help s h =
      then_lem (permit w.policy.allow_native_execution _ s) _
        (permit-keeps w.policy.allow_native_execution _ s h)
        λ _ s1 h1.
          then_lem (native_program w job_id job binary sha256_hex s1) _
            (native_program-keeps binary sha256_hex s1 h1)
            λ p s2 h2.
              then_lem (pre_stage w 4 job.execution.pre_stage _) _
                (attached-keeps _ (on_log s2 2 _ _ h2))
                λ _ s3 h3. run_process-keeps "native" cancel_rx _ s3 h3

  execute_qemu_job-keeps :
      (binary : String) (sha256_hex : Option String) (args : List String) (env : Dict String)
      (target_platform qemu_binary : Option String) (cancel_rx : Option Bool)
      (help missing : String) (s : Site)
      → P s
      → After P
          (λ a s'. P s')
          (execute_qemu_job w job_id job binary sha256_hex args env target_platform qemu_binary
            cancel_rx help missing s)
  unfolding execute_qemu_job log
  execute_qemu_job-keeps binary sha256_hex args env target_platform qemu_binary cancel_rx help
        missing s h =
      then_lem (permit w.policy.allow_emulation _ s) _ (permit-keeps w.policy.allow_emulation _ s h)
        λ _ s1 h1.
          then_lem (stage_bytes w binary sha256_hex _) _
            (staged-keeps binary sha256_hex _ (on_log s1 1 _ _ h1))
            λ bytes s2 h2.
              then_lem (check_digest w sha256_hex bytes s2) _
                (check_digest-keeps w P sha256_hex bytes s2 h2)
                λ _ s3 h3.
                  then_lem (pre_stage w 4 job.execution.pre_stage s3) _ (attached-keeps s3 h3)
                    λ _ s4 h4.
                      then_lem (store_binary w bytes s4) _ (binary-keeps bytes s4 h4) λ path s5 h5.
                        then_lem
                          (found_qemu missing (chosen_qemu w job_id job qemu_binary target_platform)
                            s5)
                          _ (found_qemu-keeps missing _ s5 h5)
                          λ q s6 h6. run_process-keeps "qemu" cancel_rx _ _ (on_log s6 2 _ _ h6)

  pub execute-keeps :
      (help : Help) (cancel_rx : Option Bool) (runtime : JobRuntime) (s : Site)
      → P s
      → After P (λ a s'. P s') (execute w help job_id job cancel_rx runtime s)
  unfolding execute
  execute-keeps help cancel_rx (wasm source sha256_hex memory_mb fuel epoch_ms mounts) s h =
      execute_wasm_job-keeps source sha256_hex memory_mb fuel epoch_ms mounts cancel_rx s h
  execute-keeps help cancel_rx (native binary sha256_hex args env) s h =
      execute_native_job-keeps binary sha256_hex args env cancel_rx help.enable s h
  execute-keeps help cancel_rx (qemu binary sha256_hex args env target_platform qemu_binary) s h =
      execute_qemu_job-keeps binary sha256_hex args env target_platform qemu_binary cancel_rx
        help.enable (help.missing target_platform) s h
