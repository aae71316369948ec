-- ===== src/Common/Signed.antt =====
-- The signed messages of crates/common/src/lib.rs.
use peer_deploy.Prelude.{ℕ, String, Bool, Option, List}
use peer_deploy.Common.Component.{MountSpec, ServicePort, Visibility}

pub record SignedManifest : Type 0 where
  pub alg : String
  pub owner_pub_bs58 : String
  pub version : ℕ
  pub manifest_toml : String
  pub signature_b64 : String

pub record AgentUpgrade : Type 0 where
  pub alg : String
  pub owner_pub_bs58 : String
  pub version : ℕ
  pub target_platform : Option String
  pub target_peer_ids : List String
  pub target_tags : List String
  pub binary_sha256_hex : String
  pub binary_b64 : String
  pub signature_b64 : String

pub record PushUnsigned : Type 0 where
  pub alg : String
  pub owner_pub_bs58 : String
  pub component_name : String
  pub target_peer_ids : List String
  pub target_tags : List String
  pub memory_max_mb : Option ℕ
  pub fuel : Option ℕ
  pub epoch_ms : Option ℕ
  pub replicas : ℕ
  pub start : Bool
  pub binary_sha256_hex : String
  pub mounts : Option (List MountSpec)
  pub ports : Option (List ServicePort)
  pub visibility : Option Visibility

pub record PushPackage : Type 0 where
  pub unsigned : PushUnsigned
  pub binary_b64 : String
  pub signature_b64 : String
