-- ===== src/Execution/Runs/Erased.antt =====
-- The staging of artifacts that have no name (`stage_artifacts` of crates/agent/src/job_manager.rs, on
-- what crates/agent/src/p2p/jobs_native.rs and its neighbours make of the specs).
use peer_deploy.Prelude.{
  ℕ, suc, String, ◌≡◌, refl, ap, ◌∙◌, ◌⊎◌, inl, inr, Bool, true, Option, none, some, List, [], ◌∷◌,
  map, All, arith, str_eq, eq_iff, eq_refl, Bool-cases, Option-cases, if◌then◌else◌,
}
use peer_deploy.Prelude.Dict
use peer_deploy.Prelude.Dict.{Dict, get-insert}
use peer_deploy.Common.Job.{JobArtifact, ArtifactSpec, Clock}
use peer_deploy.JobManager.State.{JobManager}
use peer_deploy.JobManager.Operations.{unwrap_or}
use peer_deploy.JobManager.Artifacts.{
  is_absolute, join, get_artifact_path, copy, note_copied, stage_each, stage_artifacts,
}
use peer_deploy.Storage.Store.{Bytes}
use peer_deploy.Execution.Runs.{artifact_of}

-- A spec without a name, and with an absolute path that can be written.
pub record IsUnnamed (works : String → Bool) (art : ArtifactSpec) : Type 0 where
  pub unnamed : art.name ≡ none
  pub absolute : is_absolute art.path ≡ true
  pub writable : works art.path ≡ true

-- The path of one of the specs.
abbrev pub Mentions : String → List ArtifactSpec → Type 0
Mentions path [] = ⊥
Mentions path (art ∷ arts) = (art.path ≡ path) ⊎ Mentions path arts

copy_missing :
    (works : String → Bool) (path : String) (files : Dict Bytes)
    → Dict.get files path ≡ none
    → copy works path path files ≡ none
unfolding copy
copy_missing works path files e = rw (e, copy) refl

copy_present :
    (works : String → Bool) (path : String) (files : Dict Bytes) (bytes : Bytes)
    → works path ≡ true
    → Dict.get files path ≡ some bytes
    → copy works path path files ≡ some (Dict.insert path [] files)
unfolding copy
copy_present works path files bytes w e = rw (e, copy, w, eq_refl path) refl

-- A copy of a file onto itself.
copy_self :
    (works : String → Bool) (path other : String) (files : Dict Bytes)
    → works path ≡ true
    → Dict.get (unwrap_or (copy works path path files) files) other ≡ (
        if str_eq path other
        then Dict.map_some (λ b. []) (Dict.get files other)
        else Dict.get files other)
copy_self works path other files w = elim (Option-cases (Dict.get files path)) [
  | inl gone ↦
      ap (λ o. Dict.get (unwrap_or o files) other) (copy_missing works path files gone)
      ∙ ground (arith, eq_iff path other, gone)
  | inr (bytes, there) ↦
      ap (λ o. Dict.get (unwrap_or o files) other) (copy_present works path files bytes w there)
      ∙ get-insert path other [] files
      ∙ ground (arith, eq_iff path other, there)
]

module _ (sha256_hex : Bytes → String) (works : String → Bool) (root : String) (now : Clock)
    (job_id : String) (before : Dict Bytes) where
  -- An artifact without a name is copied onto itself.
  own_path :
      (art : ArtifactSpec)
      → IsUnnamed works art
      → get_artifact_path root job_id (artifact_of before art).name ≡ art.path
  unfolding get_artifact_path join artifact_of
  own_path art h = rw (h.unnamed, h.absolute) refl

  files-note_copied :
      (i : ℕ) (a : JobArtifact) (copied : Option (Dict Bytes)) (files : Dict Bytes) (m : JobManager)
      → (note_copied sha256_hex works root now job_id i a copied (files, m)).0
        ≡ unwrap_or copied files
  unfolding note_copied
  files-note_copied i a none files m = refl
  files-note_copied i a (some files') files m =
      elim (Option-cases (Dict.get files' a.stored_path)) [
        | inl gone ↦ rw (gone, note_copied) refl
        | inr (bytes, there) ↦ rw (there, note_copied) refl
      ]

  stage_one :
      (i : ℕ) (art : ArtifactSpec) (path : String) (files : Dict Bytes) (m : JobManager)
      → IsUnnamed works art
      → Dict.get
          (note_copied sha256_hex works root now job_id i
            (artifact_of before art)
            (copy works
              (artifact_of before art).stored_path
              (get_artifact_path root job_id (artifact_of before art).name)
              files)
            (files, m)).0
          path
        ≡ (if str_eq art.path path
            then Dict.map_some (λ b. []) (Dict.get files path)
            else Dict.get files path)
  unfolding artifact_of
  stage_one i art path files m h =
      ap (λ (f : Dict Bytes). Dict.get f path)
        (files-note_copied i (artifact_of before art)
          (copy works art.path (get_artifact_path root job_id (artifact_of before art).name) files)
          files m)
      ∙ ap (λ dest. Dict.get (unwrap_or (copy works art.path dest files) files) path)
          (own_path art h)
      ∙ copy_self works art.path path files h.writable

  -- What is empty stays empty, and what none of the specs mentions stays as it is.
  stage_each-get :
      (i : ℕ) (arts : List ArtifactSpec) (path : String) (files : Dict Bytes) (m : JobManager)
      → All (IsUnnamed works) arts
      → (Dict.get files path ≡ some []
          → Dict.get
              (stage_each sha256_hex works root now job_id i
                (map (artifact_of before) arts)
                (files, m)).0
              path
            ≡ some [])
        × ((bytes : Bytes)
            → Mentions path arts
            → Dict.get files path ≡ some bytes
            → Dict.get
                (stage_each sha256_hex works root now job_id i
                  (map (artifact_of before) arts)
                  (files, m)).0
                path
              ≡ some [])
  unfolding stage_each artifact_of
  stage_each-get i [] path files m h = ((λ e. e), (λ bytes here e. elim here [ ]))
  stage_each-get i (art ∷ arts) path files m h =
      let copied =
        copy works art.path (get_artifact_path root job_id (artifact_of before art).name) files in
      let next =
        note_copied sha256_hex works root now job_id i (artifact_of before art) copied (files, m) in
      let step = stage_one i art path files m h.0 in
      let rest = stage_each-get (suc i) arts path next.0 next.1 h.1 in
      (
        (λ e. rest.0 (step ∙ ground (arith, e))),
        (λ bytes here e. elim here [
          | inl same ↦ rest.0 (step ∙ ground (arith, e, eq_iff art.path path, same))
          | inr later ↦ elim (Bool-cases (str_eq art.path path)) [
            | inl same ↦ rest.0 (step ∙ ground (arith, e, same))
            | inr other ↦ rest.1 bytes later (step ∙ ground (arith, e, other))
          ]
        ]),
      )

  -- Staging the artifacts of a job erases those that its spec lists by an absolute path and without a
  -- name: each such file that was there is empty afterwards. This is for specs that all are of this kind,
  -- with paths that can be written, and a directory that can be made.
  pub stage_artifacts-erased :
      (marked : ℕ) (arts : List ArtifactSpec) (path : String) (bytes : Bytes) (files : Dict Bytes)
      (m : JobManager)
      → All (IsUnnamed works) arts
      → Mentions path arts
      → Dict.get files path ≡ some bytes
      → Dict.get
          (stage_artifacts sha256_hex works root now job_id true marked
            (map (artifact_of before) arts)
            (files, m)).0
          path
        ≡ some []
  unfolding stage_artifacts
  stage_artifacts-erased marked arts path bytes files m h here e =
      (stage_each-get 0 arts path files m h).1 bytes here e
