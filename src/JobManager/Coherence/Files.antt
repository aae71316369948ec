-- ===== src/JobManager/Coherence/Files.antt =====
-- Reading the file and staging artifacts keep the invariant.
use peer_deploy.Prelude.{
  ℕ, suc, String, ◌≡◌, refl, inl, inr, Bool, true, false, Option, none, some, List, [], ◌∷◌, arith,
  Bool-cases, Option-cases,
}
use mathlib.Core.Path.{subst}
use peer_deploy.Prelude.Dict
use peer_deploy.Prelude.Dict.{Dict}
use peer_deploy.Prelude.Entries.{Entries, NodupKeys}
use peer_deploy.Common.Job.{JobInstance, JobArtifact, Clock}
use peer_deploy.Storage.Store.{Bytes}
use peer_deploy.JobManager.State.{
  JobManager, Codec, mark_update, load_from_disk, upgrade_job, upgrade_jobs,
}
use peer_deploy.JobManager.Artifacts
use peer_deploy.JobManager.Coherence.{IsCoherent, IsValid, IsTable, decoded}
use peer_deploy.JobManager.Coherence.Steps.{IsValid-state, update_job-IsValid}

-- The defaults for old files change neither the ids nor the status of the jobs.
upgrade_jobs-IsCoherent :
    (node_id : String) (jobs : Dict JobInstance)
    → Entries IsCoherent jobs
    → Entries IsCoherent (upgrade_jobs node_id jobs)
unfolding upgrade_jobs upgrade_job
upgrade_jobs-IsCoherent node_id [] h = tt
upgrade_jobs-IsCoherent node_id ((k, job) ∷ jobs) h =
    (h.0, upgrade_jobs-IsCoherent node_id jobs h.1)

get-upgrade_jobs :
    (node_id key : String) (jobs : Dict JobInstance)
    → Dict.get jobs key ≡ none
    → Dict.get (upgrade_jobs node_id jobs) key ≡ none
unfolding upgrade_jobs Dict.get
get-upgrade_jobs node_id key [] h = refl
get-upgrade_jobs node_id key ((k, job) ∷ jobs) h =
    ground (arith, get-upgrade_jobs node_id key jobs, h)

upgrade_jobs-NodupKeys :
    (node_id : String) (jobs : Dict JobInstance)
    → NodupKeys jobs
    → NodupKeys (upgrade_jobs node_id jobs)
unfolding upgrade_jobs
upgrade_jobs-NodupKeys node_id [] h = tt
upgrade_jobs-NodupKeys node_id ((k, job) ∷ jobs) h =
    (get-upgrade_jobs node_id k jobs h.0, upgrade_jobs-NodupKeys node_id jobs h.1)

module _ (json : Codec) where
  pub load_from_disk-IsValid :
      (readable : Bool) (file : Option String) (m : JobManager)
      → IsTable (decoded json file)
      → IsValid m
      → IsValid (load_from_disk json readable (record m { jobs_file = file })).1
  unfolding load_from_disk
  load_from_disk-IsValid readable none m f v = IsValid-state m refl v
  load_from_disk-IsValid false (some content) m f v = IsValid-state m refl v
  load_from_disk-IsValid true (some content) m f v = elim (Option-cases (json.decode content)) [
    | inl broken_file ↦ rw (broken_file, load_from_disk) (IsValid-state m refl v)
    | inr (s, read) ↦
        rw (read, load_from_disk)
          (let t = subst IsTable read f in
            record {
              coherent = upgrade_jobs-IsCoherent m.node_id s.jobs t.0;
              nodup = upgrade_jobs-NodupKeys m.node_id s.jobs t.1;
            })
  ]

-- The files and the manager while artifacts are staged.
module _ (sha256_hex : Bytes → String) (works : String → Bool) (root : String) (now : Clock)
    (id : String) where
  note_digest-IsCoherent :
      (t : ℕ) (name digest : String) (job : JobInstance)
      → IsCoherent id job
      → IsCoherent id (Artifacts.note_digest t name digest job)
  unfolding Artifacts.note_digest
  note_digest-IsCoherent t name digest job h =
      elim (Bool-cases (Artifacts.names name job.artifacts)) [
        | inl named ↦ rw (named) h
        | inr other ↦ rw (other) h
      ]

  note_copied-IsValid :
      (i : ℕ) (a : JobArtifact) (copied : Option (Dict Bytes)) (files : Dict Bytes) (m : JobManager)
      → IsValid m
      → IsValid (Artifacts.note_copied sha256_hex works root now id i a copied (files, m)).1
  unfolding Artifacts.note_copied
  note_copied-IsValid i a none files m v = v
  note_copied-IsValid i a (some files') files m v =
      elim (Option-cases (Dict.get files' a.stored_path)) [
        | inl gone ↦ rw (gone, Artifacts.note_copied) v
        | inr (bytes, read) ↦
            rw (read, Artifacts.note_copied)
              (update_job-IsValid id (Artifacts.note_digest (now i) a.name (sha256_hex bytes)) m
                (note_digest-IsCoherent (now i) a.name (sha256_hex bytes)) v)
      ]

  stage_each-IsValid :
      (i : ℕ) (artifacts : List JobArtifact) (s : Dict Bytes × JobManager)
      → IsValid s.1
      → IsValid (Artifacts.stage_each sha256_hex works root now id i artifacts s).1
  unfolding Artifacts.stage_each
  stage_each-IsValid i [] s v = v
  stage_each-IsValid i (a ∷ artifacts) s v =
      stage_each-IsValid (suc i) artifacts _ (note_copied-IsValid i a _ s.0 s.1 v)

  pub stage_artifacts-IsValid :
      (made : Bool) (marked : ℕ) (artifacts : List JobArtifact) (files : Dict Bytes)
      (m : JobManager)
      → IsValid m
      → IsValid
          (Artifacts.stage_artifacts sha256_hex works root now id made marked artifacts
            (files, m)).1
  unfolding Artifacts.stage_artifacts mark_update
  stage_artifacts-IsValid false marked artifacts files m v = v
  stage_artifacts-IsValid true marked artifacts files m v =
      IsValid-state _ refl (stage_each-IsValid 0 artifacts (files, m) v)
