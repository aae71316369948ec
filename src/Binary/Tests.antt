-- ===== src/Binary/Tests.antt =====
-- Runs of the sniffer on small headers, and the witnesses of its theorems.
use peer_deploy.Prelude.{ℕ, ◌≡◌, ◌≢◌, refl, none, some, List, [], ◌∷◌, ◌++◌, replicate}
use peer_deploy.Prelude.Outcome.{ok, err}
use peer_deploy.Binary.Bytes.{
  fat64_be, fat64_le, detect_binary_os, arch_matches, read32, bytes_eq, slice,
}
use peer_deploy.Binary.Elf.{detect_elf_arch, elf_machine}
use peer_deploy.Binary.MachO.{detect_macho_arches, macho_cputype_to_arch, fat_loop}
use peer_deploy.Binary.Host.{unknown_format, binary_target_matches_host}
use peer_deploy.Binary.Safety.{binary_target_matches_host-ne-none}
use peer_deploy.Binary.Universal.{fat64_rejected}

abbrev elf_file : List ℕ
elf_file = 0x7F ∷ 0x45 ∷ 0x4C ∷ 0x46 ∷ 2 ∷ 1 ∷ replicate 12 0 ++ 62 ∷ 0 ∷ 1 ∷ []

abbrev fat_file : List ℕ
fat_file =
    0xCA ∷ 0xFE ∷ 0xBA ∷ 0xBE ∷ 0 ∷ 0 ∷ 0 ∷ 2 ∷ 1 ∷ 0 ∷ 0 ∷ 7 ∷ replicate 16 0
    ++ 1 ∷ 0 ∷ 0 ∷ 12 ∷ replicate 16 0

elf_run :
    binary_target_matches_host "linux" "x86_64" elf_file
    ≡ some (ok (record { os = "linux"; arches = "x86_64" ∷ [] }))
unfolding binary_target_matches_host detect_binary_os detect_elf_arch arch_matches bytes_eq
    elf_machine slice
elf_run = refl

fat_run : detect_macho_arches fat_file ≡ some (some ("x86_64" ∷ "aarch64" ∷ []))
unfolding detect_macho_arches macho_cputype_to_arch fat_loop read32 bytes_eq slice
fat_run = refl

binary_target_matches_host-ne-none_example :
    binary_target_matches_host "linux" "x86_64" (0x7F ∷ 0x45 ∷ []) ≢ none
binary_target_matches_host-ne-none_example =
    binary_target_matches_host-ne-none "linux" "x86_64" (0x7F ∷ 0x45 ∷ [])

fat64_rejected_example :
    (binary_target_matches_host "macos" "aarch64" (fat64_be ++ 0 ∷ 0 ∷ 0 ∷ 1 ∷ [])
      ≡ some (err unknown_format))
    × (binary_target_matches_host "macos" "aarch64" (fat64_le ++ 0 ∷ 0 ∷ 0 ∷ 1 ∷ [])
        ≡ some (err unknown_format))
fat64_rejected_example = fat64_rejected "macos" "aarch64" (0 ∷ 0 ∷ 0 ∷ 1 ∷ [])
