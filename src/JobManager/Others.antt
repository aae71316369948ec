-- ===== src/JobManager/Others.antt =====
-- What the methods of crates/agent/src/job_manager.rs that change one job leave alone: the other jobs,
-- and whether the job is known.
use mathlib.Core.Path.{subst}
use peer_deploy.Prelude.{
  ℕ, suc, String, ◌≡◌, refl, sym, ◌∙◌, Bool, true, false, Option, none, some, List, [], ◌∷◌, str_eq,
  eq_refl, inl, inr, Option-cases,
}
use peer_deploy.Prelude.Dict
use peer_deploy.Prelude.Dict.{Dict, is_some, get-modify}
use peer_deploy.Common.Job.{JobInstance, JobArtifact, Clock}
use peer_deploy.JobManager.State.{
  JobManager, JobManagerState, Codec, mark_update, try_save, state-try_save,
}
use peer_deploy.JobManager.Operations.{
  update_job, add_job_log, add_job_artifact, complete_job, fail_job,
}
use peer_deploy.Prelude.Int.{ℤ}
use peer_deploy.JobManager.Artifacts.{
  note_copied, stage_each, stage_artifacts, copy, get_artifact_path,
}
use peer_deploy.Storage.Store.{Bytes}

module _ (id : String) (m0 : JobManager) where
  pub record IsOnly (state : JobManagerState) : Type 0 where
    pub others :
        (key : String)
        → str_eq id key ≡ false
        → Dict.get state.jobs key ≡ Dict.get m0.state.jobs key
    pub known : is_some (Dict.get state.jobs id) ≡ is_some (Dict.get m0.state.jobs id)

  known_lem :
      (f : JobInstance → JobInstance) (o : Option JobInstance)
      → is_some (Dict.map_some f o) ≡ is_some o
  known_lem f none = refl
  known_lem f (some j) = refl

  pub update_job-IsOnly :
      (f : JobInstance → JobInstance) (m : JobManager)
      → IsOnly m.state
      → IsOnly (update_job id f m).state
  unfolding update_job
  update_job-IsOnly f m h = record {
    others = λ key ne. rw (get-modify id key f m.state.jobs, ne) (h.others key ne);
    known =
        rw (get-modify id id f m.state.jobs, eq_refl id)
          (known_lem f (Dict.get m.state.jobs id) ∙ h.known);
  }

  pub try_save-IsOnly :
      (json : Codec) (writable : Bool) (m : JobManager)
      → IsOnly m.state
      → IsOnly (try_save json writable m).state
  try_save-IsOnly json writable m h = subst IsOnly (sym (state-try_save json writable m)) h

  pub add_job_log-IsOnly :
      (now : Clock) (level message : String) (m : JobManager)
      → IsOnly m.state
      → IsOnly (add_job_log now id level message m).state
  unfolding add_job_log mark_update
  add_job_log-IsOnly now level message m h = update_job-IsOnly _ m h

  pub add_job_artifact-IsOnly :
      (json : Codec) (writable : Bool) (now : Clock) (a : JobArtifact) (m : JobManager)
      → IsOnly m.state
      → IsOnly (add_job_artifact json writable now id a m).state
  unfolding add_job_artifact mark_update
  add_job_artifact-IsOnly json writable now a m h =
      try_save-IsOnly json writable _ (update_job-IsOnly _ m h)

  pub complete_job-IsOnly :
      (json : Codec) (writable : Bool) (now : Clock) (exit_code : ℤ) (m : JobManager)
      → IsOnly m.state
      → IsOnly (complete_job json writable now id exit_code m).state
  unfolding complete_job mark_update
  complete_job-IsOnly json writable now exit_code m h =
      try_save-IsOnly json writable _ (update_job-IsOnly _ m h)

  pub fail_job-IsOnly :
      (json : Codec) (writable : Bool) (now : Clock) (error : String) (m : JobManager)
      → IsOnly m.state
      → IsOnly (fail_job json writable now id error m).state
  unfolding fail_job mark_update
  fail_job-IsOnly json writable now error m h =
      try_save-IsOnly json writable _ (update_job-IsOnly _ m h)

  module _ (sha256_hex : Bytes → String) (works : String → Bool) (root : String) (now : Clock) where
    note_copied-IsOnly :
        (i : ℕ) (a : JobArtifact) (copied : Option (Dict Bytes)) (files : Dict Bytes)
        (m : JobManager)
        → IsOnly m.state
        → IsOnly (note_copied sha256_hex works root now id i a copied (files, m)).1.state
    unfolding note_copied
    note_copied-IsOnly i a none files m h = h
    note_copied-IsOnly i a (some files') files m h =
        elim (Option-cases (Dict.get files' a.stored_path)) [
          | inl gone ↦ rw (gone, note_copied) h
          | inr (bytes, there) ↦ rw (there, note_copied) (update_job-IsOnly _ m h)
        ]

    stage_each-IsOnly :
        (i : ℕ) (artifacts : List JobArtifact) (files : Dict Bytes) (m : JobManager)
        → IsOnly m.state
        → IsOnly (stage_each sha256_hex works root now id i artifacts (files, m)).1.state
    unfolding stage_each
    stage_each-IsOnly i [] files m h = h
    stage_each-IsOnly i (a ∷ artifacts) files m h =
        let next =
          note_copied sha256_hex works root now id i a
            (copy works a.stored_path (get_artifact_path root id a.name) files) (files, m) in
        stage_each-IsOnly (suc i) artifacts next.0 next.1 (
          note_copied-IsOnly i a (copy works a.stored_path (get_artifact_path root id a.name) files)
            files m h)

    pub stage_artifacts-IsOnly :
        (dir_made : Bool) (marked : ℕ) (artifacts : List JobArtifact) (files : Dict Bytes)
        (m : JobManager)
        → IsOnly m.state
        → IsOnly
            (stage_artifacts sha256_hex works root now id dir_made marked artifacts
              (files, m)).1.state
    unfolding stage_artifacts mark_update
    stage_artifacts-IsOnly false marked artifacts files m h = h
    stage_artifacts-IsOnly true marked artifacts files m h = stage_each-IsOnly 0 artifacts files m h
