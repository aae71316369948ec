-- ===== src/Binary/Elf.antt =====
-- `detect_elf_arch` of crates/agent/src/p2p/handlers/util.rs.
use peer_deploy.Prelude.{
  ℕ, ◌+◌, String, not, Option, none, some, List, length, ltb, ◌==◌, if◌then◌else◌,
}
use peer_deploy.Prelude.Outcome.{◌>>=◌}
use peer_deploy.Binary.Bytes.{index, slice, bytes_eq, from_le16, from_be16, elf_magic}

-- The `match em`.
unfoldable pub elf_machine : ℕ → Option String
elf_machine em =
    if em == 62
    then some "x86_64"
    else if em == 183
    then some "aarch64"
    else if em == 3
    then some "x86"
    else if em == 40
    then some "arm"
    else if em == 243
    then some "riscv64"
    else none

-- The part after the test of the magic: the byte order is that of `bin[5]`.
unfoldable pub elf_arch_body : List ℕ → Option (Option String)
elf_arch_body bin = do
  ei_data ← index bin 5
  let is_le = ei_data == 1
  if ltb (length bin) (18 + 2) then some none else do
    b0 ← index bin 18
    b1 ← index bin (18 + 1)
    some (elf_machine (if is_le then from_le16 b0 b1 else from_be16 b0 b1))

unfoldable pub detect_elf_arch : List ℕ → Option (Option String)
unfolding elf_arch_body
detect_elf_arch bin = if ltb (length bin) 20 then some none else (do
  m4 ← slice bin 0 4
  if not (bytes_eq m4 elf_magic) then some none else elf_arch_body bin)
