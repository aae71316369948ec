-- ===== src/Cli/Upgrade.antt =====
-- `upgrade_multi`, `upgrade` and `detect_binary_platform` of crates/agent/src/cmd/upgrade.rs. The functions `detect_binary_os`,
-- `detect_elf_arch`, `detect_macho_arches`, `macho_cputype_to_arch` and `detect_pe_arch` of that file have the same text as
-- those of crates/agent/src/p2p/handlers/util.rs, which are in Binary. The network and the key file are left out: the pair of
-- keys is an argument, and a read file is its bytes.
pub mod Installed
use peer_deploy.Prelude.{
  ℕ, String, Bool, Option, none, some, List, [], ◌∷◌, true, false, map, if◌then◌else◌,
}
use peer_deploy.Prelude.Outcome.{◌>>=◌}
use peer_deploy.Prelude.Text.{concat}
use peer_deploy.Common.Signed.{AgentUpgrade}
use peer_deploy.Storage.Store.{Bytes}
use peer_deploy.Binary.Bytes.{BinaryOs, linux, mac_os, windows, detect_binary_os}
use peer_deploy.Binary.Elf.{detect_elf_arch}
use peer_deploy.Binary.MachO.{detect_macho_arches}
use peer_deploy.Binary.Pe.{detect_pe_arch}
use peer_deploy.Deploy.Crypto.{Crypto}
use peer_deploy.Deploy.State.{trim}
use peer_deploy.Cli.Keys.{OwnerKeypair, Signer}
use peer_deploy.Cli.Text.{split_once}

-- `Some(format!("{os}/{arch}"))`, if there is an architecture.
unfoldable pub label : String → Option String → Option String
label os none = none
label os (some arch) = some (concat (os ∷ "/" ∷ arch ∷ []))

-- "Universal/fat: serve to all mac targets"
unfoldable pub mac_label : Option (List String) → Option String
unfolding label
mac_label (some (arch ∷ [])) = label "macos" (some arch)
mac_label _ = none

unfoldable pub label_of : Option BinaryOs → List ℕ → Option (Option String)
unfolding label mac_label
label_of none bin = some none
label_of (some linux) bin = do a ← detect_elf_arch bin; some (label "linux" a)
label_of (some mac_os) bin = do a ← detect_macho_arches bin; some (mac_label a)
label_of (some windows) bin = do a ← detect_pe_arch bin; some (label "windows" a)

-- `none` is a panic.
unfoldable pub detect_binary_platform : List ℕ → Option (Option String)
unfolding label_of
detect_binary_platform bin = detect_binary_os bin >>= (λ os. label_of os bin)

-- `target_platform.or_else(|| detect_binary_platform(&bin_bytes))`
unfoldable pub platform_or_detected : Option String → List ℕ → Option (Option String)
unfolding detect_binary_platform
platform_or_detected none bin = detect_binary_platform bin
platform_or_detected (some plat) bin = some (some plat)

module _ (crypto : Crypto) (signer : Signer crypto) (kp : OwnerKeypair) where
  -- The package that `upgrade` publishes; `none` where it ends before.
  unfoldable pub upgrade :
      Option Bytes → ℕ → Option String → List String → List String → Option AgentUpgrade
  unfolding platform_or_detected
  upgrade file version target_platform target_peers target_tags = do
    bin_bytes ← file
    sig ← signer.sign_bytes_ed25519 kp.private_hex bin_bytes
    platform_detected ← platform_or_detected target_platform bin_bytes
    some (record {
      alg = "ed25519";
      owner_pub_bs58 = kp.public_bs58;
      version = version;
      target_platform = platform_detected;
      target_peer_ids = target_peers;
      target_tags = target_tags;
      binary_sha256_hex = crypto.sha256_hex bin_bytes;
      binary_b64 = signer.encode bin_bytes;
      signature_b64 = signer.encode sig;
    })

-- `"<plat>=<path>"` or `"<path>"`
unfoldable pub split_entry : String → Option String × String
unfolding split_once
split_entry entry = elim (split_once b'=' entry) [
  | none ↦ (none, entry)
  | some (p, f) ↦ (some (trim p), trim f)
]

-- `plat_opt.or_else(|| target_platform.clone())`
abbrev pub or_given : Option String → Option String → Option String
or_given none target_platform = target_platform
or_given (some p) target_platform = some p

unfoldable pub entry_platform : Bool → Option String → Option String → Option String
entry_platform all_platforms target_platform plat_opt =
    if all_platforms then plat_opt else or_given plat_opt target_platform

-- What is to be upgraded: the path of each binary and the platform it is given.
unfoldable pub entry_of : Bool → Option String → String → String × Option String
unfolding split_entry entry_platform
entry_of all_platforms target_platform entry =
    ((split_entry entry).1, entry_platform all_platforms target_platform (split_entry entry).0)

module _ (crypto : Crypto) (signer : Signer crypto) (kp : OwnerKeypair)
    (read : String → Option Bytes) (version : ℕ) (target_peers target_tags : List String) where
  -- `for entry in bins`: what is published, and whether the loop got to its end.
  unfoldable pub upgrade_each : List (String × Option String) → List AgentUpgrade × Bool
  unfolding upgrade
  upgrade_each [] = ([], true)
  upgrade_each ((path, plat) ∷ entries) =
      let rest = upgrade_each entries in
      elim (upgrade crypto signer kp (read path) version plat target_peers target_tags) [
        | none ↦ ([], false)
        | some pkg ↦ (pkg ∷ rest.0, rest.1)
      ]

  unfoldable pub upgrade_multi :
      List String → Option String → Option String → Bool → List AgentUpgrade × Bool
  unfolding upgrade_each entry_of
  upgrade_multi [] none target_platform all_platforms = ([], false)
  upgrade_multi [] (some file) target_platform all_platforms =
      upgrade_each ((file, target_platform) ∷ [])
  upgrade_multi (bin ∷ bins) file target_platform all_platforms =
      upgrade_each (map (entry_of all_platforms target_platform) (bin ∷ bins))
