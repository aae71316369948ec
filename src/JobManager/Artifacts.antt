-- ===== src/JobManager/Artifacts.antt =====
-- `JobManager::stage_artifacts` and `get_artifact_path` of crates/agent/src/job_manager.rs, on the files
-- of a node. Paths are those of Unix.
use text.Mathlib.Text.{starts_with}
use peer_deploy.Prelude.{
  ℕ, suc, String, Bool, true, false, Option, none, some, List, [], ◌∷◌, str_eq, if◌then◌else◌,
}
use peer_deploy.Prelude.Dict
use peer_deploy.Prelude.Dict.{Dict}
use peer_deploy.Prelude.Text.{concat}
use peer_deploy.Common.Job.{JobArtifact, JobInstance, Clock}
use peer_deploy.JobManager.State.{JobManager, mark_update}
use peer_deploy.JobManager.Operations.{update_job}
use peer_deploy.Storage.Store.{Bytes}

abbrev pub is_absolute : String → Bool
is_absolute path = starts_with path "/"

-- `Path::join`: an absolute path replaces the one before it.
unfoldable pub join : String → String → String
join dir path = if is_absolute path then path else concat (dir ∷ "/" ∷ path ∷ [])

-- `root` is `data_dir.parent().unwrap().join("artifacts").join("jobs")`.
unfoldable pub get_artifact_path : String → String → String → String
unfolding join
get_artifact_path root job_id artifact_name = join (join root job_id) artifact_name

-- `std::fs::copy`: the destination is emptied before the source is read, so that a copy of a file onto
-- itself leaves it empty. `none` is an error: no such source, or a destination that cannot be written.
unfoldable pub copy : (String → Bool) → String → String → Dict Bytes → Option (Dict Bytes)
copy works src dest files = elim (Dict.get files src) [
  | none ↦ none
  | some bytes ↦
      if works dest
      then some (Dict.insert dest (if str_eq src dest then [] else bytes) files)
      else none
]

-- `iter_mut().find(|a| a.name == artifact.name)` and the write to what it finds.
unfoldable pub set_digest : String → String → List JobArtifact → List JobArtifact
set_digest name digest [] = []
set_digest name digest (a ∷ artifacts) =
    if str_eq a.name name
    then record a { sha256_hex = some digest } ∷ artifacts
    else a ∷ set_digest name digest artifacts

-- `find` finds nothing: the job is left alone, its stamp included.
unfoldable pub names : String → List JobArtifact → Bool
names name [] = false
names name (a ∷ artifacts) = if str_eq a.name name then true else names name artifacts

unfoldable pub note_digest : ℕ → String → String → JobInstance → JobInstance
unfolding set_digest names
note_digest now name digest job =
    if names name job.artifacts
    then record job { artifacts = set_digest name digest job.artifacts; updated_at = now }
    else job

module _ (sha256_hex : Bytes → String) (works : String → Bool) (root : String) (now : Clock)
    (job_id : String) where
  -- What follows the copy of one artifact: its digest is noted, if it can be read.
  unfoldable pub note_copied :
      ℕ → JobArtifact → Option (Dict Bytes) → Dict Bytes × JobManager → Dict Bytes × JobManager
  unfolding note_digest
  note_copied i a none (files, m) = (files, m)
  note_copied i a (some files') (files, m) = elim (Dict.get files' a.stored_path) [
    | none ↦ (files', m)
    | some bytes ↦ (files', update_job job_id (note_digest (now i) a.name (sha256_hex bytes)) m)
  ]

  unfoldable pub stage_each :
      ℕ → List JobArtifact → Dict Bytes × JobManager → Dict Bytes × JobManager
  unfolding get_artifact_path copy note_copied
  stage_each i [] s = s
  stage_each i (a ∷ artifacts) s =
      stage_each (suc i) artifacts
        (note_copied i a (copy works a.stored_path (get_artifact_path root job_id a.name) s.0) s)

  -- `dir_made` tells whether the directory of the job can be made.
  unfoldable pub stage_artifacts :
      Bool → ℕ → List JobArtifact → Dict Bytes × JobManager → Dict Bytes × JobManager
  unfolding stage_each mark_update
  stage_artifacts false marked artifacts s = s
  stage_artifacts true marked artifacts s =
      let (files, m) = stage_each 0 artifacts s in (files, mark_update marked m)
