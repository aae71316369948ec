-- ===== src/Binary/Universal.antt =====
-- Universal binaries with 64-bit records: `detect_binary_os` does not list their magic numbers,
-- `detect_macho_arches` does (crates/agent/src/p2p/handlers/util.rs).
use peer_deploy.Prelude.{ℕ, String, ◌≡◌, none, some, List, ◌++◌, arith}
use peer_deploy.Prelude.Outcome.{err}
use peer_deploy.Binary.Bytes.{slice, bytes_eq, detect_binary_os, fat64_be, fat64_le}
use peer_deploy.Binary.Host.{unknown_format, binary_target_matches_host}

detect_binary_os-fat64_be : (rest : List ℕ) → detect_binary_os (fat64_be ++ rest) ≡ some none
unfolding detect_binary_os slice bytes_eq
detect_binary_os-fat64_be rest = ground arith

detect_binary_os-fat64_le : (rest : List ℕ) → detect_binary_os (fat64_le ++ rest) ≡ some none
unfolding detect_binary_os slice bytes_eq
detect_binary_os-fat64_le rest = ground arith

-- A universal binary with 64-bit records, of either byte order and whatever its records, is
-- rejected on every host as an unknown format.
pub fat64_rejected :
    (host_os host_arch : String) (rest : List ℕ)
    → (binary_target_matches_host host_os host_arch (fat64_be ++ rest) ≡ some (err unknown_format))
      × (binary_target_matches_host host_os host_arch (fat64_le ++ rest)
          ≡ some (err unknown_format))
unfolding binary_target_matches_host
fat64_rejected host_os host_arch rest =
    (rw (detect_binary_os-fat64_be rest), rw (detect_binary_os-fat64_le rest))
