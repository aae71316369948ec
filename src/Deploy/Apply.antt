-- ===== src/Deploy/Apply.antt =====
-- `handle_apply_manifest` of crates/agent/src/p2p/handlers/apply.rs, with
-- `verify_and_stage_artifacts` of its neighbour util.rs. Log lines are left out.
pub mod Accept
pub mod Steps
use peer_deploy.Prelude.{
  ℕ, String, Bool, true, false, not, Option, none, some, List, [], ◌∷◌, length, leb, keep, str_eq,
  if◌then◌else◌,
}
use peer_deploy.Prelude.Dict
use peer_deploy.Prelude.Dict.{Dict, is_some}
use peer_deploy.Prelude.Outcome.{Result, ok, err}
use peer_deploy.Prelude.Text.{concat, format_u64}
use peer_deploy.Common.Component.{ComponentSpec, Manifest, is_empty, matches_target}
use peer_deploy.Common.Signed.{SignedManifest}
use peer_deploy.Storage.Store.{Bytes}
use peer_deploy.Metrics.{set_components_desired}
use peer_deploy.Supervisor.{Supervisor, DesiredComponent, set_desired}
use peer_deploy.Deploy.Crypto.{Crypto, artifact_path}
use peer_deploy.Deploy.State.{
  DataDir, load_trusted_owner, save_trusted_owner, load_state, save_state, save_desired_manifest,
}
use peer_deploy.Deploy.Push.{Node}

-- Which of the operations on files succeed.
pub record ApplyFiles : Type 0 where
  pub owner_written : Bool
  pub artifact_written : String → Bool
  pub manifest_written : Bool
  pub state_written : Bool

-- The message that the handler sends, and the node after it.
abbrev pub Answer : Type 0
Answer = Result String String × Node

-- The components for this node.
unfoldable pub applicable : String → List String → Dict ComponentSpec → Dict ComponentSpec
applicable local_peer_id agent_roles components =
    keep
      (λ (c : String × ComponentSpec). matches_target c.1 (some local_peer_id) (some agent_roles))
      components

-- Those with `start`.
unfoldable pub started : Dict ComponentSpec → Dict ComponentSpec
started components = keep (λ (c : String × ComponentSpec). c.1.start) components

-- The desired set: a component without a staged artifact is passed over.
unfoldable pub desired_set : Dict String → Dict ComponentSpec → Dict DesiredComponent
desired_set staged [] = []
desired_set staged ((name, spec) ∷ components) =
    let rest = desired_set staged components in
    if not spec.start then rest else elim (Dict.get staged name) [
      | none ↦ rest
      | some path ↦ (name, record { name = name; path = path; spec = spec }) ∷ rest
    ]

module _ (crypto : Crypto) (files : ApplyFiles) where
  -- One turn of the loop of `verify_and_stage_artifacts`: the path, and the artifacts after it.
  unfoldable pub stage_component :
      String → ComponentSpec → Dict Bytes → Result String String × Dict Bytes
  stage_component name comp artifacts = elim (crypto.fetch_bytes comp.source) [
    | err e ↦ (err e, artifacts)
    | ok bytes ↦
        let digest = crypto.sha256_hex bytes in
        let file_path = artifact_path name digest in
        if not (str_eq digest comp.sha256_hex)
        then (err (concat ("component " ∷ name ∷ " digest mismatch" ∷ [])), artifacts)
        else if is_some (Dict.get artifacts file_path)
        then (ok file_path, artifacts)
        else if files.artifact_written file_path
        then (ok file_path, Dict.insert file_path bytes artifacts)
        else (err "write", artifacts)
  ]

  unfoldable pub stage_components :
      Dict ComponentSpec → Dict String → Dict Bytes → Result (Dict String) String × Dict Bytes
  unfolding stage_component
  stage_components [] staged artifacts = (ok staged, artifacts)
  stage_components ((name, comp) ∷ components) staged artifacts =
      let (r, artifacts') = stage_component name comp artifacts in
      elim r [
        | err e ↦ (err e, artifacts')
        | ok path ↦ stage_components components (Dict.insert_sorted name path staged) artifacts'
      ]

  -- From `let desired_count` to the end.
  unfoldable pub install_manifest :
      SignedManifest → Dict ComponentSpec → Dict String → Node → Answer
  unfolding started desired_set
  install_manifest signed components staged n =
      let s = record n.supervisor {
        metrics = set_components_desired (length (started components)) n.supervisor.metrics;
      } in
      let d = save_desired_manifest files.manifest_written signed.manifest_toml n.dir in
      let state2 = record (load_state d) { manifest_version = signed.version } in
      (
        ok (concat ("manifest accepted v" ∷ format_u64 signed.version ∷ [])),
        record {
          dir = save_state files.state_written state2 d;
          supervisor = set_desired (desired_set staged components) s;
        },
      )

  -- `verify_and_stage_artifacts` and the match on its result; nothing is staged for no component.
  unfoldable pub stage_manifest : SignedManifest → Dict ComponentSpec → Node → Answer
  unfolding install_manifest stage_components
  stage_manifest signed components n =
      if is_empty components
      then install_manifest signed components [] n
      else let (r, artifacts) = stage_components components [] n.dir.artifacts in
        let n' = record n { dir = record n.dir { artifacts = artifacts } } in
        elim r [
          | err e ↦ (err (concat ("manifest rejected (digest): " ∷ e ∷ [])), n')
          | ok staged ↦ install_manifest signed components staged n'
        ]

  module _ (local_peer_id : String) (agent_roles : List String) where
    -- From the check of the version on.
    unfoldable pub accept_manifest : SignedManifest → Node → Answer
    unfolding stage_manifest applicable
    accept_manifest signed n =
        if leb signed.version (load_state n.dir).manifest_version
        then (
          err (
              concat (
                "manifest rejected (stale v"
                ∷ format_u64 signed.version
                ∷ " <= v"
                ∷ format_u64 (load_state n.dir).manifest_version
                ∷ ")"
                ∷ [])),
          n,
        )
        else elim (crypto.parse_manifest signed.manifest_toml) [
          | err e ↦ (err (concat ("manifest rejected (parse): " ∷ e ∷ [])), n)
          | ok manifest ↦
              stage_manifest signed (applicable local_peer_id agent_roles manifest.components) n
        ]

    -- The owner's check, which records the first owner.
    unfoldable pub trust_manifest : SignedManifest → Node → Answer
    unfolding accept_manifest
    trust_manifest signed n = elim (load_trusted_owner n.dir) [
      | none ↦
          accept_manifest signed
            (record n { dir = save_trusted_owner files.owner_written signed.owner_pub_bs58 n.dir })
      | some trusted ↦
          if not (str_eq trusted signed.owner_pub_bs58)
          then (err "manifest rejected (owner mismatch)", n)
          else accept_manifest signed n
    ]

    -- `unwrap_or(false)`
    unfoldable pub signature_holds : SignedManifest → Bytes → Bool
    signature_holds signed sig =
        elim (crypto.verify_bytes_ed25519 signed.owner_pub_bs58
          (crypto.text_bytes signed.manifest_toml) sig) [ err e ↦ false | ok valid ↦ valid ]

    unfoldable pub handle_apply_manifest : SignedManifest → Node → Answer
    unfolding trust_manifest signature_holds
    handle_apply_manifest signed n = elim (crypto.decode signed.signature_b64) [
      | err e ↦ (err (concat ("bad signature_b64: " ∷ e ∷ [])), n)
      | ok sig ↦
          if not (signature_holds signed sig)
          then (err "manifest rejected (sig)", n)
          else trust_manifest signed n
    ]
