-- ===== src/Cli/Tests.antt =====
-- Witnesses: an upgrade and a push with a stand-in for the cryptography.
use Prim.Native.Char.{code}
use peer_deploy.Prelude.{
  ℕ, zero, suc, ◌+◌, ◌==◌, ◌≡◌, ◌∙◌, ap, refl, arith, true, none, some, String, [], ◌∷◌,
  if◌then◌else◌,
}
use peer_deploy.Common.Component.{tcp}
use peer_deploy.Deploy.Crypto.{Crypto}
use peer_deploy.Prelude.Outcome.{ok}
use peer_deploy.Common.Signed.{PushUnsigned}
use peer_deploy.Storage.Store.{Bytes}
use peer_deploy.Deploy.Samples.{elf, crypto, dir, host}
use peer_deploy.Deploy.State.{load_trusted_owner, load_state}
use peer_deploy.Prelude.Text.{concat}
use peer_deploy.Binary.Bytes.{detect_binary_os, slice, bytes_eq, arch_matches}
use peer_deploy.Binary.Elf.{detect_elf_arch, elf_machine}
use peer_deploy.Binary.Host.{binary_target_matches_host}
use peer_deploy.Deploy.Upgrade.{handle_upgrade}
use peer_deploy.Deploy.Upgrade.Replay.{Installs}
use peer_deploy.Cli.Keys.{OwnerKeypair, Signer}
use peer_deploy.Cli.Upgrade.{upgrade}
use peer_deploy.Cli.Upgrade.Installed.{handle_upgrade-upgrade}
use peer_deploy.Cli.Push.{PushOptions, unsigned}

-- A number as that many letters `a` and a letter `b`, for the bytes of a text.
abbrev written : ℕ → String → String
written zero rest = String.◌∷◌ "b" rest
written (suc n) rest = String.◌∷◌ "a" (written n rest)

abbrev encode : Bytes → String
encode [] = ""
encode (n ∷ bytes) = written n (encode bytes)

abbrev decode : ℕ → String → Bytes
decode acc String.[] = []
decode acc (String.◌∷◌ c s) =
    let next = acc ∷ decode 0 s in
    let more = decode (suc acc) s in if code c == b'b' then next else more

decode-written :
    (acc n : ℕ) (rest : String) → decode acc (written n rest) ≡ (acc + n) ∷ decode 0 rest
decode-written acc zero rest = ap (λ k. k ∷ decode 0 rest) {x = acc} {y = acc + 0} (omega arith)
decode-written acc (suc n) rest =
    decode-written (suc acc) n rest
    ∙ ap (λ k. k ∷ decode 0 rest) {x = suc acc + n} {y = acc + suc n} (omega arith)

decode-encode : (bytes : Bytes) → decode 0 (encode bytes) ≡ bytes
decode-encode [] = refl
decode-encode (n ∷ bytes) =
    decode-written 0 n (encode bytes)
    ∙ ap (λ k. k ∷ decode 0 (encode bytes)) {x = 0 + n} {y = n} (omega arith)
    ∙ ap (λ l. n ∷ l) (decode-encode bytes)

-- A cryptography whose signatures are the bytes themselves.
abbrev plain : Crypto
plain = record crypto { decode = λ text. ok (decode 0 text) }

abbrev signer : Signer plain
signer = record {
  sign_bytes_ed25519 = λ key bytes. some bytes;
  encode = encode;
  decode-encode = λ bytes. ap ok (decode-encode bytes);
}

abbrev alice : OwnerKeypair
alice = record { public_bs58 = "alice"; private_hex = "00" }

handle_upgrade-upgrade_example : Installs 6 elf (
    handle_upgrade plain host
      (record {
        alg = "ed25519";
        owner_pub_bs58 = "alice";
        version = 6;
        target_platform = some "linux/x86_64";
        target_peer_ids = [];
        target_tags = [];
        binary_sha256_hex = "0123456789abcdef";
        binary_b64 = encode elf;
        signature_b64 = encode elf;
      })
      dir)
unfolding upgrade detect_binary_os slice bytes_eq detect_elf_arch binary_target_matches_host
    elf_machine arch_matches load_trusted_owner load_state concat
handle_upgrade-upgrade_example =
    handle_upgrade-upgrade plain signer alice (λ bytes sig e. refl) host elf 6 [] [] _
      (record { os = "linux"; arches = "x86_64" ∷ [] }) dir refl refl
      (refl, refl, refl, refl, refl, refl) refl (omega arith)

abbrev options : PushOptions
options = record {
  name = "web";
  replicas = 2;
  memory_max_mb = 64;
  fuel = 0;
  epoch_ms = 100;
  mounts_cli = "host=/srv, guest=/data,ro=true" ∷ [];
  ports_cli = "8080/tcp" ∷ "9000" ∷ [];
  visibility_cli = some "public";
  target_peers = [];
  target_tags = "edge" ∷ [];
  start = true;
}

abbrev web : PushUnsigned
web = unsigned plain signer alice options elf

-- The options are read as they are meant, and a port without a protocol is left out.
read_options :
    (web.mounts ≡ some (record { host = "/srv"; guest = "/data"; ro = true } ∷ []))
    × (web.ports ≡ some (record { name = none; port = 8080; protocol = tcp } ∷ []))
unfolding unsigned
read_options = (refl, refl)
