-- ===== src/Execution/Runs/Started.antt =====
-- What a started program is in the runs of crates/agent/src/p2p/jobs_wasm.rs, jobs_native.rs and jobs_qemu.rs start, for a job
-- that declares a digest.
use peer_deploy.Prelude.{
  ℕ, suc, ◌≤◌, String, ◌≡◌, sym, Bool, true, false, Option, none, some, List, [], ◌∷◌, ◌++◌, length,
  inl, inr, Bool-cases, arith, All,
}
use mathlib.Core.Path.{subst}
use peer_deploy.Prelude.Dict
use peer_deploy.Prelude.Dict.{Dict}
use peer_deploy.Prelude.Outcome.{Result, ok, err}
use peer_deploy.Common.Job.{JobSpec, JobInstance, ArtifactSpec, JobRuntime, native}
use peer_deploy.JobManager.Artifacts.{is_absolute}
use peer_deploy.Storage.Store.{Bytes, ContentStore}
use peer_deploy.Execution.Site.{
  Worker, Site, Program, stored, system, Launch, program, ProcessEnd, spawn_failed, wait_failed,
  exited, log, launch,
}
use peer_deploy.Execution.Staging.Lookup.{IsIdle}
use peer_deploy.Execution.Runs.{
  capture_each, stage_known, capture, job_ok, end_module, run_module, success, end_process,
  cancelled_process, run_process,
}
use peer_deploy.Execution.Logic.{After}

-- A binary of the system is one that a native job names by an absolute path.
abbrev pub Names : JobRuntime → String → Type 0
Names (native binary sha256_hex args env) path = (path ≡ binary) × (is_absolute binary ≡ true)
Names _ path = ⊥

-- A program that is the binary with the declared digest, or that the job names.
abbrev pub IsDeclared : (Bytes → String) → String → JobRuntime → ContentStore → Program → Type 0
IsDeclared sha256_hex hex runtime store (stored path) =
    (bytes : Bytes) × (Dict.get store.blobs path ≡ some bytes) × (sha256_hex bytes ≡ hex)
IsDeclared sha256_hex hex runtime store (system path) = Names runtime path

module _ (w : Worker) (runtime : JobRuntime) (hex : String) where
  -- At most one program is started, and it is the declared one.
  abbrev pub IsVerified : Site → Type 0
  IsVerified s =
      (length s.launched ≤ 1)
      × All (λ l. IsDeclared w.sha256_hex hex runtime s.store (program l)) s.launched

  pub IsIdle-IsVerified : (s : Site) → IsIdle w s → IsVerified s
  IsIdle-IsVerified s h =
      subst
        (λ (ls : List Launch).
          (length ls ≤ 1) × All (λ l. IsDeclared w.sha256_hex hex runtime s.store (program l)) ls)
        (sym h.none_started) (omega arith, tt)

  launch-IsVerified :
      (l : Launch) (s : Site)
      → IsIdle w s
      → IsDeclared w.sha256_hex hex runtime s.store (program l)
      → IsVerified (record s { launched = s.launched ++ l ∷ [] })
  launch-IsVerified l s h d =
      subst
        (λ (ls : List Launch).
          (length (ls ++ l ∷ []) ≤ 1)
          × All (λ k. IsDeclared w.sha256_hex hex runtime s.store (program k)) (ls ++ l ∷ []))
        (sym h.none_started) (omega arith, (d, tt))

  module _ (job_id : String) (job : JobSpec) where
    capture_each-IsVerified :
        (k : ℕ) (arts : List ArtifactSpec) (s : Site)
        → IsVerified s
        → IsVerified (capture_each w job_id job k arts s)
    unfolding capture_each
    capture_each-IsVerified k [] s h = h
    capture_each-IsVerified k (art ∷ arts) s h = capture_each-IsVerified (suc k) arts _ h

    stage_known-IsVerified :
        (known : Option JobInstance) (s : Site)
        → IsVerified s
        → IsVerified (stage_known w job_id job known s)
    unfolding stage_known
    stage_known-IsVerified none s h = h
    stage_known-IsVerified (some j) s h = h

    capture-IsVerified :
        (arts : Option (List ArtifactSpec)) (s : Site)
        → IsVerified s
        → IsVerified (capture w job_id job arts s)
    unfolding capture
    capture-IsVerified none s h = h
    capture-IsVerified (some arts) s h =
        stage_known-IsVerified _ _ (capture_each-IsVerified 7 arts s h)

    job_ok-IsVerified :
        (s : Site) → IsVerified s → After IsVerified (λ a s'. IsVerified s') (job_ok w job_id job s)
    unfolding job_ok
    job_ok-IsVerified s h = capture-IsVerified job.execution.artifacts s h

    end_module-IsVerified :
        (r : Result Unit String) (s : Site)
        → IsVerified s
        → After IsVerified (λ a s'. IsVerified s') (end_module w job_id job r s)
    unfolding end_module
    end_module-IsVerified (ok _) s h = job_ok-IsVerified s h
    end_module-IsVerified (err e) s h = h

    end_process-IsVerified :
        (kind : String) (r : ProcessEnd) (s : Site)
        → IsVerified s
        → After IsVerified (λ a s'. IsVerified s') (end_process w job_id job kind r s)
    unfolding end_process
    end_process-IsVerified kind (spawn_failed e) s h = h
    end_process-IsVerified kind (wait_failed e) s h = h
    end_process-IsVerified kind (exited code) s h = elim (Bool-cases (success code)) [
      | inl zero ↦ rw (zero) (job_ok-IsVerified s h)
      | inr other ↦ rw (other) h
    ]

    cancelled_process-IsVerified :
        (r : ProcessEnd) (s : Site)
        → IsVerified s
        → After IsVerified (λ a s'. IsVerified s') (cancelled_process w job_id job r s)
    unfolding cancelled_process
    cancelled_process-IsVerified (spawn_failed e) s h = h
    cancelled_process-IsVerified (wait_failed e) s h = h
    cancelled_process-IsVerified (exited code) s h = h

    pub run_module-IsVerified :
        (cancel_rx : Option Bool) (l : Launch) (s : Site)
        → IsIdle w s
        → IsDeclared w.sha256_hex hex runtime s.store (program l)
        → After IsVerified (λ a s'. IsVerified s') (run_module w job_id job cancel_rx l s)
    unfolding run_module launch log
    run_module-IsVerified none l s h d =
        end_module-IsVerified (w.run_module l) _ (launch-IsVerified l s h d)
    run_module-IsVerified (some true) l s h d = launch-IsVerified l s h d
    run_module-IsVerified (some false) l s h d =
        end_module-IsVerified (w.run_module l) _ (launch-IsVerified l s h d)

    pub run_process-IsVerified :
        (kind : String) (cancel_rx : Option Bool) (l : Launch) (s : Site)
        → IsIdle w s
        → IsDeclared w.sha256_hex hex runtime s.store (program l)
        → After IsVerified (λ a s'. IsVerified s') (run_process w job_id job kind cancel_rx l s)
    unfolding run_process launch
    run_process-IsVerified kind none l s h d =
        end_process-IsVerified kind (w.run_process l) _ (launch-IsVerified l s h d)
    run_process-IsVerified kind (some true) l s h d =
        cancelled_process-IsVerified (w.run_process l) _ (launch-IsVerified l s h d)
    run_process-IsVerified kind (some false) l s h d =
        end_process-IsVerified kind (w.run_process l) _ (launch-IsVerified l s h d)
