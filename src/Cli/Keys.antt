-- ===== src/Cli/Keys.antt =====
-- The key of the owner (`OwnerKeypair` of crates/common/src/lib.rs), and what the commands call outside the
-- repository: the signature of ed25519 and the base64 text of bytes.
use peer_deploy.Prelude.{String, ◌≡◌, true, Option, some}
use peer_deploy.Prelude.Outcome.{ok}
use peer_deploy.Storage.Store.{Bytes}
use peer_deploy.Deploy.Crypto.{Crypto}

pub record OwnerKeypair : Type 0 where
  pub public_bs58 : String
  pub private_hex : String

-- base64 decodes what it encodes. `sign_bytes_ed25519` fails on a text that is no key.
pub record Signer (crypto : Crypto) : Type 0 where
  pub sign_bytes_ed25519 : String → Bytes → Option Bytes
  pub encode : Bytes → String
  pub decode-encode : (bytes : Bytes) → crypto.decode (encode bytes) ≡ ok bytes

-- The two halves belong together: the public key verifies what the private one signs.
abbrev pub IsPair : (crypto : Crypto) → Signer crypto → OwnerKeypair → Type 0
IsPair crypto signer kp =
    (bytes sig : Bytes)
    → signer.sign_bytes_ed25519 kp.private_hex bytes ≡ some sig
    → crypto.verify_bytes_ed25519 kp.public_bs58 bytes sig ≡ ok true
