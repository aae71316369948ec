-- ===== src/Binary/Host.antt =====
-- `binary_target_matches_host` of crates/agent/src/p2p/handlers/util.rs.
-- `std::env::consts::OS` and `ARCH` of the host are the arguments `host_os` and `host_arch`.
use peer_deploy.Prelude.{
  ℕ, String, not, Option, none, some, List, [], ◌∷◌, any, str_eq, if◌then◌else◌,
}
use peer_deploy.Prelude.Outcome.{Result, ok, err, ◌>>=◌}
use peer_deploy.Binary.Bytes.{BinaryOs, linux, mac_os, windows, detect_binary_os, arch_matches}
use peer_deploy.Binary.Elf.{detect_elf_arch}
use peer_deploy.Binary.MachO.{detect_macho_arches}
use peer_deploy.Binary.Pe.{detect_pe_arch}

-- What the messages of the `Err` cases say.
pub data TargetError : Type 0 where
  -- "host {} but bin {}"
  wrong_os : String → String → TargetError
  -- "host {}/{} but bin {}/{}", the last with the binary's architectures
  wrong_arch : String → String → String → List String → TargetError
  unrecognized_elf unrecognized_macho unrecognized_pe unknown_format : TargetError

-- What the `Ok` message says: the system, and the binary's architectures joined by `|`.
pub record Target : Type 0 where
  pub os : String
  pub arches : List String

-- The `match` on the architecture of an ELF or PE file.
unfoldable pub check_arch :
    String → String → String → TargetError → Option String → Result Target TargetError
check_arch host_os host_arch os failure none = err failure
check_arch host_os host_arch os failure (some a) =
    if arch_matches a host_arch
    then ok (record { os = os; arches = a ∷ [] })
    else err (wrong_arch host_os host_arch os (a ∷ []))

-- The `match` on the architectures of a Mach-O file.
unfoldable pub check_arches : String → String → Option (List String) → Result Target TargetError
check_arches host_os host_arch none = err unrecognized_macho
check_arches host_os host_arch (some arches) =
    if any (λ a. arch_matches a host_arch) arches
    then ok (record { os = "macos"; arches = arches })
    else err (wrong_arch host_os host_arch "macos" arches)

unfoldable pub match_os :
    String → String → List ℕ → Option BinaryOs → Option (Result Target TargetError)
unfolding check_arch check_arches
match_os host_os host_arch bin (some linux) =
    if not (str_eq host_os "linux") then some (err (wrong_os host_os "linux")) else (do
      a ← detect_elf_arch bin
      some (check_arch host_os host_arch "linux" unrecognized_elf a))
match_os host_os host_arch bin (some mac_os) =
    if not (str_eq host_os "macos")
    then some (err (wrong_os host_os "macos"))
    else (do a ← detect_macho_arches bin; some (check_arches host_os host_arch a))
match_os host_os host_arch bin (some windows) =
    if not (str_eq host_os "windows") then some (err (wrong_os host_os "windows")) else (do
      a ← detect_pe_arch bin
      some (check_arch host_os host_arch "windows" unrecognized_pe a))
match_os host_os host_arch bin none = some (err unknown_format)

unfoldable pub binary_target_matches_host :
    String → String → List ℕ → Option (Result Target TargetError)
unfolding match_os
binary_target_matches_host host_os host_arch bin =
    (detect_binary_os bin) >>= match_os host_os host_arch bin
