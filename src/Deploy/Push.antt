-- ===== src/Deploy/Push.antt =====
-- `handle_push_package` of crates/agent/src/p2p/handlers/push.rs. Log lines are left out.
pub mod Trust
use peer_deploy.Prelude.{
  ℕ, String, Bool, true, false, not, Option, none, some, List, [], ◌∷◌, str_eq, if◌then◌else◌,
}
use peer_deploy.Prelude.Dict
use peer_deploy.Prelude.Dict.{Dict, is_some}
use peer_deploy.Prelude.Outcome.{Result, ok, err}
use peer_deploy.Prelude.Text.{concat}
use peer_deploy.Common.Component.{ComponentSpec}
use peer_deploy.Common.Signed.{PushUnsigned, PushPackage}
use peer_deploy.Storage.Store.{Bytes}
use peer_deploy.Supervisor.{Supervisor, DesiredComponent, upsert_component}
use peer_deploy.Deploy.Crypto.{Crypto, artifact_path}
use peer_deploy.Deploy.State.{
  DataDir, load_trusted_owner, save_trusted_owner, update_persistent_manifest_with_component,
}

pub data PushAcceptanceError : Type 0 where
  invalid_signature : PushAcceptanceError
  owner_mismatch : String → String → PushAcceptanceError
  digest_mismatch : PushAcceptanceError
  decode_error : String → PushAcceptanceError
  verify_error : String → PushAcceptanceError
  io_error : String → PushAcceptanceError

-- The files and the supervisor of a node.
pub record Node : Type 0 where
  pub dir : DataDir
  pub supervisor : Supervisor

-- Which of the operations on files succeed.
pub record PushFiles : Type 0 where
  pub owner_written : Bool
  pub stage_dir_created : Bool
  pub artifact_written : Bool
  pub manifest_written : Bool

-- The component that a package starts.
unfoldable pub pushed_spec : PushUnsigned → ComponentSpec
pushed_spec u = record {
  source = concat ("cached:" ∷ u.binary_sha256_hex ∷ []);
  sha256_hex = u.binary_sha256_hex;
  memory_max_mb = u.memory_max_mb;
  fuel = u.fuel;
  epoch_ms = u.epoch_ms;
  replicas = some u.replicas;
  mounts = u.mounts;
  ports = u.ports;
  visibility = u.visibility;
  target_peer_ids = u.target_peer_ids;
  target_tags = u.target_tags;
  start = u.start;
}

module _ (crypto : Crypto) (files : PushFiles) where
  -- `if pkg.unsigned.start`
  unfoldable pub schedule_push : PushUnsigned → String → Node → Node
  unfolding pushed_spec
  schedule_push u file_path n =
      if u.start
      then record {
        dir =
            update_persistent_manifest_with_component crypto files.manifest_written u.component_name
              (pushed_spec u) n.dir;
        supervisor =
            upsert_component
              (record { name = u.component_name; path = file_path; spec = pushed_spec u })
              n.supervisor;
      }
      else n

  -- `if !file_path.exists()`, and the write: `none` is its failure.
  unfoldable pub stage_artifact : String → Bytes → DataDir → Option DataDir
  stage_artifact file_path bytes d =
      if is_some (Dict.get d.artifacts file_path)
      then some d
      else if files.artifact_written
      then some (record d { artifacts = Dict.insert file_path bytes d.artifacts })
      else none

  unfoldable pub stage_push : PushUnsigned → Bytes → Node → Result Unit PushAcceptanceError × Node
  unfolding schedule_push stage_artifact
  stage_push u bin_bytes n =
      let file_path = artifact_path u.component_name (crypto.sha256_hex bin_bytes) in
      if not files.stage_dir_created
      then (err (io_error "create_dir_all"), n)
      else elim (stage_artifact file_path bin_bytes n.dir) [
        | none ↦ (err (io_error "write"), n)
        | some d ↦ (ok tt, schedule_push u file_path (record n { dir = d }))
      ]

  -- The owner's check, which records the first owner.
  unfoldable pub trust_push : PushUnsigned → Bytes → Node → Result Unit PushAcceptanceError × Node
  unfolding stage_push
  trust_push u bin_bytes n = elim (load_trusted_owner n.dir) [
    | none ↦
        stage_push u bin_bytes
          (record n { dir = save_trusted_owner files.owner_written u.owner_pub_bs58 n.dir })
    | some trusted ↦
        if not (str_eq trusted u.owner_pub_bs58)
        then (err (owner_mismatch trusted u.owner_pub_bs58), n)
        else stage_push u bin_bytes n
  ]

  unfoldable pub check_push_digest : PushPackage → Node → Result Unit PushAcceptanceError × Node
  unfolding trust_push
  check_push_digest pkg n = elim (crypto.decode pkg.binary_b64) [
    | err e ↦ (err (decode_error e), n)
    | ok bin_bytes ↦
        if not (str_eq (crypto.sha256_hex bin_bytes) pkg.unsigned.binary_sha256_hex)
        then (err digest_mismatch, n)
        else trust_push pkg.unsigned bin_bytes n
  ]

  unfoldable pub check_push_signature :
      PushPackage → Bytes → Node → Result Unit PushAcceptanceError × Node
  unfolding check_push_digest
  check_push_signature pkg sig_bytes n =
      elim (crypto.verify_bytes_ed25519 pkg.unsigned.owner_pub_bs58
        (crypto.unsigned_bytes pkg.unsigned) sig_bytes) [
          | err e ↦ (err (verify_error e), n)
          | ok valid ↦ if not valid then (err invalid_signature, n) else check_push_digest pkg n
        ]

  unfoldable pub handle_push_package : PushPackage → Node → Result Unit PushAcceptanceError × Node
  unfolding check_push_signature
  handle_push_package pkg n = elim (crypto.decode pkg.signature_b64) [
    | err e ↦ (err (decode_error e), n)
    | ok sig_bytes ↦ check_push_signature pkg sig_bytes n
  ]
