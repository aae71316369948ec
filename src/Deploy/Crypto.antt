-- ===== src/Deploy/Crypto.antt =====
-- What the handlers of crates/agent/src/p2p/handlers call outside the repository: base64, ed25519,
-- sha2, serde_json, toml and the fetch of a URL, as one parameter.
use Prim.Native.String.{slice}
use peer_deploy.Prelude.{String, Bool, Option, [], ◌∷◌}
use peer_deploy.Prelude.Outcome.{Result}
use peer_deploy.Prelude.Text.{concat}
use peer_deploy.Common.Component.{Manifest}
use peer_deploy.Common.Signed.{PushUnsigned}
use peer_deploy.Storage.Store.{Bytes}

pub record Crypto : Type 0 where
  pub decode : String → Result Bytes String
  pub verify_bytes_ed25519 : String → Bytes → Bytes → Result Bool String
  pub sha256_hex : Bytes → String
  pub unsigned_bytes : PushUnsigned → Bytes
  pub text_bytes : String → Bytes
  pub parse_manifest : String → Result Manifest String
  pub print_manifest : Manifest → Option String
  pub fetch_bytes : String → Result Bytes String

-- `stage_dir.join(format!("{}-{}.wasm", name, &digest[..16]))`, relative to the stage directory.
unfoldable pub artifact_path : String → String → String
artifact_path name digest = concat (name ∷ "-" ∷ slice digest 0 16 ∷ ".wasm" ∷ [])
