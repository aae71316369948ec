-- ===== src/Binary/Accept.antt =====
-- What an accepting verdict of `binary_target_matches_host`
-- (crates/agent/src/p2p/handlers/util.rs) guarantees.
use peer_deploy.Prelude.{
  ℕ, String, ◌≡◌, refl, true, Option, none, some, List, [], ◌∷◌, arith, any, eq_iff,
}
use peer_deploy.Prelude.Outcome.{ok, ◌>>=◌}
use peer_deploy.Binary.Bytes.{BinaryOs, linux, mac_os, windows, detect_binary_os, arch_matches}
use peer_deploy.Binary.Elf.{detect_elf_arch}
use peer_deploy.Binary.MachO.{detect_macho_arches}
use peer_deploy.Binary.Pe.{detect_pe_arch}
use peer_deploy.Binary.Host.{Target, match_os, binary_target_matches_host}

-- The names that `std::env::consts::OS` has for the three formats.
abbrev pub os_name : BinaryOs → String
os_name linux = "linux"
os_name mac_os = "macos"
os_name windows = "windows"

-- The architectures that the file's own header declares.
abbrev pub declared : BinaryOs → List ℕ → Option (Option (List String))
declared linux bin =
    detect_elf_arch bin >>= (λ a. some (elim a [ none ↦ none | some x ↦ some (x ∷ []) ]))
declared mac_os bin = detect_macho_arches bin
declared windows bin =
    detect_pe_arch bin >>= (λ a. some (elim a [ none ↦ none | some x ↦ some (x ∷ []) ]))

-- The guarantee of a verdict `t` about `bin`.
pub record FitsHost (host_os host_arch : String) (bin : List ℕ) (t : Target) : Type 0 where
  pub format : BinaryOs
  pub detected : detect_binary_os bin ≡ some (some format)
  pub same_os : host_os ≡ os_name format
  pub reported_os : t.os ≡ os_name format
  pub reported_arches : declared format bin ≡ some (some t.arches)
  pub runs_here : any (λ a. arch_matches a host_arch) t.arches ≡ true

match_os_ok :
    (host_os host_arch : String) (bin : List ℕ) (o : Option BinaryOs) (t : Target)
    → detect_binary_os bin ≡ some o
    → match_os host_os host_arch bin o ≡ some (ok t)
    → FitsHost host_os host_arch bin t
unfolding match_os
match_os_ok host_os host_arch bin (some linux) t d h = record {
  format = linux;
  detected = d;
  same_os = ground (arith, eq_iff host_os "linux");
  reported_os = ground arith;
  reported_arches = ground arith;
  runs_here = ground arith;
}
match_os_ok host_os host_arch bin (some mac_os) t d h = record {
  format = mac_os;
  detected = d;
  same_os = ground (arith, eq_iff host_os "macos");
  reported_os = ground arith;
  reported_arches = ground arith;
  runs_here = ground arith;
}
match_os_ok host_os host_arch bin (some windows) t d h = record {
  format = windows;
  detected = d;
  same_os = ground (arith, eq_iff host_os "windows");
  reported_os = ground arith;
  reported_arches = ground arith;
  runs_here = ground arith;
}
match_os_ok host_os host_arch bin none t d h = absurd (ground arith)

-- If the sniffer accepts a binary on a host, the binary's format is the host's system, the verdict
-- reports exactly the system and the architectures that the file's header declares, and one of
-- those is the host's architecture.
pub binary_target_matches_host-FitsHost :
    (host_os host_arch : String) (bin : List ℕ) (t : Target)
    → binary_target_matches_host host_os host_arch bin ≡ some (ok t)
    → FitsHost host_os host_arch bin t
unfolding binary_target_matches_host
binary_target_matches_host-FitsHost host_os host_arch bin t h = go (detect_binary_os bin) refl
  where
    go :
        (o : Option (Option BinaryOs)) → detect_binary_os bin ≡ o → FitsHost host_os host_arch bin t
    go none e = absurd (ground (arith, e))
    go (some o) e = match_os_ok host_os host_arch bin o t e (rw e at h)
