-- ===== src/Cli/Upgrade/Installed.antt =====
-- An upgrade from the command (crates/agent/src/cmd/upgrade.rs) to the new process
-- (crates/agent/src/p2p/handlers/upgrade.rs).
use peer_deploy.Prelude.{
  ℕ, ◌<◌, String, ◌≡◌, refl, sym, ap, ◌∙◌, inr, true, false, not, Option, none, some, List, [], ◌∷◌,
  any, arith, str_eq, eq_iff, eq_refl,
}
use mathlib.Core.Path.{subst}
use peer_deploy.Prelude.Outcome.{ok, ◌>>=◌}
use peer_deploy.Prelude.Text.{concat}
use peer_deploy.Common.Signed.{AgentUpgrade}
use peer_deploy.Storage.Store.{Bytes}
use peer_deploy.Binary.Bytes.{BinaryOs, linux, mac_os, windows, arch_matches}
use peer_deploy.Binary.Elf.{detect_elf_arch}
use peer_deploy.Binary.MachO.{detect_macho_arches}
use peer_deploy.Binary.Pe.{detect_pe_arch}
use peer_deploy.Binary.Host.{Target, binary_target_matches_host}
use peer_deploy.Binary.Accept.{os_name, declared, binary_target_matches_host-FitsHost}
use peer_deploy.Deploy.Crypto.{Crypto}
use peer_deploy.Deploy.State.{DataDir, load_trusted_owner, load_state}
use peer_deploy.Deploy.Upgrade.{UpgradeHost, host_platform_string, platform_differs, handle_upgrade}
use peer_deploy.Deploy.Upgrade.Replay.{IsWorking, Installs, handle_upgrade-altered}
use peer_deploy.Cli.Keys.{OwnerKeypair, Signer, IsPair}
use peer_deploy.Cli.Upgrade.{
  label, mac_label, label_of, detect_binary_platform, platform_or_detected, upgrade,
}

-- The architecture of a binary that runs on the host is the host's, by name.
arch_same : (a b : String) → arch_matches a b ≡ true → a ≡ b
unfolding arch_matches
arch_same a b h = ground (
  arith,
  eq_iff a "x86_64",
  eq_iff b "x86_64",
  eq_iff a "aarch64",
  eq_iff b "aarch64",
  eq_iff a "arm",
  eq_iff b "arm",
  eq_iff a "x86",
  eq_iff b "x86",
  eq_iff a "riscv64",
  eq_iff b "riscv64",
)

-- A label with the host's system and an architecture that runs there is the host's platform.
label_fits :
    (host : UpgradeHost) (os a : String)
    → host.os ≡ os
    → arch_matches a host.arch ≡ true
    → platform_differs host (label os (some a)) ≡ false
unfolding platform_differs host_platform_string label
label_fits host os a e h =
    subst
      (λ o. not (str_eq (concat (o ∷ "/" ∷ host.arch ∷ [])) (concat (os ∷ "/" ∷ a ∷ []))) ≡ false)
      (sym e)
      (subst (λ b. not (str_eq (concat (os ∷ "/" ∷ b ∷ [])) (concat (os ∷ "/" ∷ a ∷ []))) ≡ false)
        (arch_same a host.arch h) (ap not (eq_refl (concat (os ∷ "/" ∷ a ∷ [])))))

-- The label of an ELF or PE file.
single_fits :
    (host : UpgradeHost) (os : String) (arches : List String) (p : Option String)
    (o : Option (Option String))
    → host.os ≡ os
    → (o >>= (λ a. some (elim a [ none ↦ none | some x ↦ some (x ∷ []) ]))) ≡ some (some arches)
    → any (λ a. arch_matches a host.arch) arches ≡ true
    → (o >>= (λ a. some (label os a))) ≡ some p
    → platform_differs host p ≡ false
single_fits host os arches p none e d r h = absurd (ground (arith, d))
single_fits host os arches p (some none) e d r h = absurd (ground (arith, d))
single_fits host os arches p (some (some a)) e d r h =
    subst (λ q. platform_differs host q ≡ false) {x = label os (some a)} {y = p} (ground (arith, h))
      (label_fits host os a e (
        ground (
          arith,
          r,
          subst (λ l. any (λ b. arch_matches b host.arch) l ≡ true) {x = arches} {y = a ∷ []}
              (ground (arith, d)) r,
        )))

-- The label of a Mach-O file, which a universal one has not.
universal_fits :
    (host : UpgradeHost) (arches : List String) (p : Option String)
    → host.os ≡ "macos"
    → any (λ a. arch_matches a host.arch) arches ≡ true
    → mac_label (some arches) ≡ p
    → platform_differs host p ≡ false
unfolding mac_label platform_differs
universal_fits host [] p e r h = absurd (ground (arith, r))
universal_fits host (a ∷ []) p e r h =
    subst (λ q. platform_differs host q ≡ false) h (label_fits host "macos" a e (ground (arith, r)))
universal_fits host (a ∷ b ∷ arches) p e r h = subst (λ q. platform_differs host q ≡ false) h refl

mac_fits :
    (host : UpgradeHost) (arches : List String) (p : Option String)
    (o : Option (Option (List String)))
    → host.os ≡ "macos"
    → o ≡ some (some arches)
    → any (λ a. arch_matches a host.arch) arches ≡ true
    → (o >>= (λ a. some (mac_label a))) ≡ some p
    → platform_differs host p ≡ false
mac_fits host arches p none e d r h = absurd (ground (arith, d))
mac_fits host arches p (some none) e d r h = absurd (ground (arith, d))
mac_fits host arches p (some (some l)) e d r h = universal_fits host arches p e r (
    subst (λ k. mac_label (some k) ≡ p) {x = l} {y = arches} (ground (arith, d))
      (ground (arith, h)))

-- The label that is detected for a binary that fits a host never excludes the host.
label_of_fits :
    (host : UpgradeHost) (bin : List ℕ) (arches : List String) (p : Option String)
    (format : BinaryOs)
    → host.os ≡ os_name format
    → declared format bin ≡ some (some arches)
    → any (λ a. arch_matches a host.arch) arches ≡ true
    → label_of (some format) bin ≡ some p
    → platform_differs host p ≡ false
unfolding label_of
label_of_fits host bin arches p linux e d r h =
    single_fits host "linux" arches p (detect_elf_arch bin) e d r h
label_of_fits host bin arches p mac_os e d r h =
    mac_fits host arches p (detect_macho_arches bin) e d r h
label_of_fits host bin arches p windows e d r h =
    single_fits host "windows" arches p (detect_pe_arch bin) e d r h

detected_fits :
    (host : UpgradeHost) (bin : List ℕ) (t : Target) (p : Option String)
    → binary_target_matches_host host.os host.arch bin ≡ some (ok t)
    → detect_binary_platform bin ≡ some p
    → platform_differs host p ≡ false
unfolding detect_binary_platform
detected_fits host bin t p accepted h =
    let f = binary_target_matches_host-FitsHost host.os host.arch bin t accepted in
    label_of_fits host bin t.arches p f.format f.same_os f.reported_arches f.runs_here
      (ap (λ o. o >>= (λ os. label_of os bin)) (sym f.detected) ∙ h)

module _ (crypto : Crypto) (signer : Signer crypto) (kp : OwnerKeypair)
    (pair : IsPair crypto signer kp) (host : UpgradeHost) where
  abbrev signed_package :
      Bytes → Bytes → ℕ → Option String → List String → List String → AgentUpgrade
  signed_package bin sig version plat peers tags = record {
    alg = "ed25519";
    owner_pub_bs58 = kp.public_bs58;
    version = version;
    target_platform = plat;
    target_peer_ids = peers;
    target_tags = tags;
    binary_sha256_hex = crypto.sha256_hex bin;
    binary_b64 = signer.encode bin;
    signature_b64 = signer.encode sig;
  }

  signed_package-Installs :
      (bin : Bytes) (version : ℕ) (peers tags : List String) (t : Target) (d : DataDir)
      (sig : Bytes) (plat : Option String)
      → signer.sign_bytes_ed25519 kp.private_hex bin ≡ some sig
      → binary_target_matches_host host.os host.arch bin ≡ some (ok t)
      → platform_differs host plat ≡ false
      → IsWorking host
      → load_trusted_owner d ≡ some kp.public_bs58
      → (load_state d).agent_version < version
      → Installs version bin
          (handle_upgrade crypto host (signed_package bin sig version plat peers tags) d)
  signed_package-Installs bin version peers tags t d sig plat signed fits same w owner newer =
      handle_upgrade-altered crypto host (signed_package bin sig version plat peers tags) version
        peers tags d d
        (record {
          sig = sig;
          bin = bin;
          decoded = (signer.decode-encode sig, signer.decode-encode bin);
          verified = pair bin sig signed;
          owner = inr owner;
          digest = refl;
          target = t;
          fits = fits;
          platform = same;
        })
        w owner newer

  published :
      (bin : Bytes) (version : ℕ) (peers tags : List String) (pkg : AgentUpgrade) (t : Target)
      (d : DataDir) (s : Option Bytes) (r : Option (Option String))
      → signer.sign_bytes_ed25519 kp.private_hex bin ≡ s
      → detect_binary_platform bin ≡ r
      → (s >>= (λ sig. r >>= (λ plat. some (signed_package bin sig version plat peers tags))))
        ≡ some pkg
      → binary_target_matches_host host.os host.arch bin ≡ some (ok t)
      → IsWorking host
      → load_trusted_owner d ≡ some kp.public_bs58
      → (load_state d).agent_version < version
      → Installs version bin (handle_upgrade crypto host pkg d)
  published bin version peers tags pkg t d none r e f made fits w owner newer =
      absurd (ground (arith, made))
  published bin version peers tags pkg t d (some sig) none e f made fits w owner newer =
      absurd (ground (arith, made))
  published bin version peers tags pkg t d (some sig) (some plat) e f made fits w owner newer =
      subst (λ q. Installs version bin (handle_upgrade crypto host q d))
        {x = signed_package bin sig version plat peers tags} {y = pkg} (ground (arith, made))
        (signed_package-Installs bin version peers tags t d sig plat e fits
          (detected_fits host bin t plat fits f) w owner newer)

  -- An upgrade that the owner publishes without a platform arrives: if the binary fits the host, the package was made with
  -- the key of the owner that the node trusts, and its version is above the node's, then the handler starts
  -- the new process on exactly this binary and records the version, for any targets. The platform that
  -- the command detects never excludes such a host. This is for a host whose files and process creation work.
  pub handle_upgrade-upgrade :
      (bin : Bytes) (version : ℕ) (peers tags : List String) (pkg : AgentUpgrade) (t : Target)
      (d : DataDir)
      → upgrade crypto signer kp (some bin) version none peers tags ≡ some pkg
      → binary_target_matches_host host.os host.arch bin ≡ some (ok t)
      → IsWorking host
      → load_trusted_owner d ≡ some kp.public_bs58
      → (load_state d).agent_version < version
      → Installs version bin (handle_upgrade crypto host pkg d)
  unfolding upgrade platform_or_detected
  handle_upgrade-upgrade bin version peers tags pkg t d made fits w owner newer =
      published bin version peers tags pkg t d (signer.sign_bytes_ed25519 kp.private_hex bin)
        (detect_binary_platform bin) refl refl made fits w owner newer
