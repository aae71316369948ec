-- ===== src/Deploy/Apply/Steps.antt =====
-- The part of `handle_apply_manifest` in crates/agent/src/p2p/handlers/apply.rs that follows the
-- check of the owner: the version, the staging and the installation.
use peer_deploy.Prelude.{
  ◌<◌, String, ◌≡◌, refl, ◌⊎◌, inl, inr, true, List, [], arith, leb, Bool-cases,
}
use peer_deploy.Prelude.Dict.{Dict}
use peer_deploy.Prelude.Outcome.{ok, err, Result-cases}
use peer_deploy.Common.Component.{ComponentSpec, is_empty}
use peer_deploy.Common.Signed.{SignedManifest}
use peer_deploy.Storage.Store.{Bytes}
use peer_deploy.Deploy.Crypto.{Crypto}
use peer_deploy.Deploy.State.{load_state, save_state, save_desired_manifest}
use peer_deploy.Deploy.Push.{Node}
use peer_deploy.Deploy.Apply.{
  ApplyFiles, Answer, applicable, stage_components, install_manifest, stage_manifest,
  accept_manifest,
}

-- A rejection: the supervisor, the state and the desired manifest are as before.
pub record IsRejected (n : Node) (r : Answer) : Type 0 where
  pub reason : String
  pub rejected : r.0 ≡ err reason
  pub supervisor : r.1.supervisor ≡ n.supervisor
  pub state_json : r.1.dir.state_json ≡ n.dir.state_json
  pub desired_manifest : r.1.dir.desired_manifest ≡ n.dir.desired_manifest

-- An installation: the state is as before but for the version, which is the manifest's.
pub record IsInstalled (signed : SignedManifest) (n : Node) (r : Answer) : Type 0 where
  pub message : String
  pub accepted : r.0 ≡ ok message
  pub state : load_state r.1.dir ≡ record (load_state n.dir) { manifest_version = signed.version }

module _ (crypto : Crypto) (files : ApplyFiles) where
  install_manifest-IsInstalled :
      (signed : SignedManifest) (components : Dict ComponentSpec) (staged : Dict String) (n : Node)
      → files.state_written ≡ true
      → IsInstalled signed n (install_manifest crypto files signed components staged n)
  unfolding install_manifest load_state save_state save_desired_manifest
  install_manifest-IsInstalled signed components staged n w = record {
    message = _;
    accepted = refl;
    state = rw (w) (elim (Bool-cases files.manifest_written) [
      | inl written ↦ rw (written) refl
      | inr failed ↦ rw (failed) refl
    ]);
  }

  install_manifest-owner :
      (signed : SignedManifest) (components : Dict ComponentSpec) (staged : Dict String) (n : Node)
      → (install_manifest crypto files signed components staged n).1.dir.owner_pub ≡ n.dir.owner_pub
  unfolding install_manifest load_state save_state save_desired_manifest
  install_manifest-owner signed components staged n = elim (Bool-cases files.state_written) [
    | inl saved ↦ rw (saved) (elim (Bool-cases files.manifest_written) [
      | inl written ↦ rw (written) refl
      | inr failed ↦ rw (failed) refl
    ])
    | inr unsaved ↦ rw (unsaved) (elim (Bool-cases files.manifest_written) [
      | inl written ↦ rw (written) refl
      | inr failed ↦ rw (failed) refl
    ])
  ]

  -- Either a staging error, or what `install_manifest` returns from a node with other artifacts.
  stage_manifest-cases :
      (P : Answer → Type 0) (signed : SignedManifest) (components : Dict ComponentSpec) (n : Node)
      → ((staged : Dict String) (artifacts : Dict Bytes)
          → P (
              install_manifest crypto files signed components staged
                (record n { dir = record n.dir { artifacts = artifacts } })))
      → ((reason : String) (artifacts : Dict Bytes)
          → P (err reason, record n { dir = record n.dir { artifacts = artifacts } }))
      → P (stage_manifest crypto files signed components n)
  unfolding stage_manifest
  stage_manifest-cases P signed components n installed failed =
      elim (Bool-cases (is_empty components)) [
        | inl nothing ↦ rw (nothing) (installed [] n.dir.artifacts)
        | inr something ↦
            rw (something)
              (elim (Result-cases (stage_components crypto files components [] n.dir.artifacts).0) [
                | inl (staged, good) ↦ rw (good) (
                    installed staged
                      (stage_components crypto files components [] n.dir.artifacts).1)
                | inr (e, bad) ↦
                    rw (bad)
                      (failed _ (stage_components crypto files components [] n.dir.artifacts).1)
              ])
      ]

  stage_manifest-outcome :
      (signed : SignedManifest) (components : Dict ComponentSpec) (n : Node)
      → files.state_written ≡ true
      → IsInstalled signed n (stage_manifest crypto files signed components n)
        ⊎ IsRejected n (stage_manifest crypto files signed components n)
  unfolding load_state
  stage_manifest-outcome signed components n w =
      stage_manifest-cases (λ r. IsInstalled signed n r ⊎ IsRejected n r) signed components n
        (λ staged artifacts.
          let i =
            install_manifest-IsInstalled signed components staged
              (record n { dir = record n.dir { artifacts = artifacts } }) w in
          inl (record { message = i.message; accepted = i.accepted; state = i.state }))
        (λ reason artifacts. inr (record {
          reason = reason;
          rejected = refl;
          supervisor = refl;
          state_json = refl;
          desired_manifest = refl;
        }))

  stage_manifest-owner :
      (signed : SignedManifest) (components : Dict ComponentSpec) (n : Node)
      → (stage_manifest crypto files signed components n).1.dir.owner_pub ≡ n.dir.owner_pub
  stage_manifest-owner signed components n =
      stage_manifest-cases (λ r. r.1.dir.owner_pub ≡ n.dir.owner_pub) signed components n
        (λ staged artifacts.
          install_manifest-owner signed components staged
            (record n { dir = record n.dir { artifacts = artifacts } }))
        (λ reason artifacts. refl)

  module _ (id : String) (roles : List String) where
    pub accept_manifest-outcome :
        (signed : SignedManifest) (n : Node)
        → files.state_written ≡ true
        → (((load_state n.dir).manifest_version < signed.version)
            × IsInstalled signed n (accept_manifest crypto files id roles signed n))
          ⊎ IsRejected n (accept_manifest crypto files id roles signed n)
    unfolding accept_manifest load_state
    accept_manifest-outcome signed n w =
        elim (Bool-cases (leb signed.version (load_state n.dir).manifest_version)) [
          | inl stale ↦
              rw (stale, accept_manifest)
                (inr (record {
                  reason = _;
                  rejected = refl;
                  supervisor = refl;
                  state_json = refl;
                  desired_manifest = refl;
                }))
          | inr newer ↦ elim (Result-cases (crypto.parse_manifest signed.manifest_toml)) [
            | inr (e, bad) ↦
                rw (newer, accept_manifest, bad)
                  (inr (record {
                    reason = _;
                    rejected = refl;
                    supervisor = refl;
                    state_json = refl;
                    desired_manifest = refl;
                  }))
            | inl (m, good) ↦
                rw (newer, accept_manifest, good)
                  (elim (stage_manifest-outcome signed (applicable id roles m.components) n w) [
                    | inl installed ↦ inl (ground (arith, newer), installed)
                    | inr rejected ↦ inr rejected
                  ])
          ]
        ]

    pub accept_manifest-owner :
        (signed : SignedManifest) (n : Node)
        → (accept_manifest crypto files id roles signed n).1.dir.owner_pub ≡ n.dir.owner_pub
    unfolding accept_manifest
    accept_manifest-owner signed n =
        elim (Bool-cases (leb signed.version (load_state n.dir).manifest_version)) [
          | inl stale ↦ rw (stale, accept_manifest) refl
          | inr newer ↦ elim (Result-cases (crypto.parse_manifest signed.manifest_toml)) [
            | inr (e, bad) ↦ rw (newer, accept_manifest, bad) refl
            | inl (m, good) ↦
                rw (newer, accept_manifest, good)
                  (stage_manifest-owner signed (applicable id roles m.components) n)
          ]
        ]
