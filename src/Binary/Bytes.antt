-- ===== src/Binary/Bytes.antt =====
-- Byte slices as the sniffer reads them, and `detect_binary_os` and `arch_matches`.
use peer_deploy.Prelude.{
  ℕ, ◌+◌, ◌-◌, ◌*◌, String, Bool, true, false, ◌&&◌, ◌||◌, Option, none, some, List, [], ◌∷◌,
  length, get_elem?, take, drop, leb, ◌==◌, str_eq, if◌then◌else◌,
}
use peer_deploy.Prelude.Outcome.{◌>>=◌}

-- `bin[i]`: out of bounds is a panic.
abbrev pub index : List ℕ → ℕ → Option ℕ
index bin i = get_elem? bin i

-- `&bin[a..b]`: a panic where the range is not within the slice.
unfoldable pub slice : List ℕ → ℕ → ℕ → Option (List ℕ)
slice bin a b = if leb a b && leb b (length bin) then some (take (b - a) (drop a bin)) else none

-- Equality of byte strings.
unfoldable pub bytes_eq : List ℕ → List ℕ → Bool
bytes_eq [] [] = true
bytes_eq (x ∷ xs) (y ∷ ys) = (x == y) && bytes_eq xs ys
bytes_eq _ _ = false

-- `u16::from_le_bytes`, `u16::from_be_bytes`, `u32::from_le_bytes`, `u32::from_be_bytes`.
abbrev pub from_le16 : ℕ → ℕ → ℕ
from_le16 a b = a + 256 * b

abbrev pub from_be16 : ℕ → ℕ → ℕ
from_be16 a b = 256 * a + b

abbrev pub from_le32 : ℕ → ℕ → ℕ → ℕ → ℕ
from_le32 a b c d = a + 256 * b + 65536 * c + 16777216 * d

abbrev pub from_be32 : ℕ → ℕ → ℕ → ℕ → ℕ
from_be32 a b c d = 16777216 * a + 65536 * b + 256 * c + d

-- The four bytes from `off` on, as a number.
unfoldable pub read32 : Bool → List ℕ → ℕ → Option ℕ
read32 be bin off = do
  a ← index bin off
  b ← index bin (off + 1)
  c ← index bin (off + 2)
  d ← index bin (off + 3)
  some (if be then from_be32 a b c d else from_le32 a b c d)

-- The magic numbers.
abbrev pub elf_magic : List ℕ
elf_magic = 0x7F ∷ b'E' ∷ b'L' ∷ b'F' ∷ []

abbrev pub mz_magic : List ℕ
mz_magic = b'M' ∷ b'Z' ∷ []

abbrev pub pe_magic : List ℕ
pe_magic = b'P' ∷ b'E' ∷ 0 ∷ 0 ∷ []

abbrev pub dos_magic : List ℕ
dos_magic = 0x4D ∷ 0x5A ∷ 0x90 ∷ 0x00 ∷ []

abbrev pub thin32_be : List ℕ
thin32_be = 0xFE ∷ 0xED ∷ 0xFA ∷ 0xCE ∷ []

abbrev pub thin64_be : List ℕ
thin64_be = 0xFE ∷ 0xED ∷ 0xFA ∷ 0xCF ∷ []

abbrev pub thin32_le : List ℕ
thin32_le = 0xCE ∷ 0xFA ∷ 0xED ∷ 0xFE ∷ []

abbrev pub thin64_le : List ℕ
thin64_le = 0xCF ∷ 0xFA ∷ 0xED ∷ 0xFE ∷ []

abbrev pub fat_be : List ℕ
fat_be = 0xCA ∷ 0xFE ∷ 0xBA ∷ 0xBE ∷ []

abbrev pub fat_le : List ℕ
fat_le = 0xBE ∷ 0xBA ∷ 0xFE ∷ 0xCA ∷ []

abbrev pub fat64_be : List ℕ
fat64_be = 0xCA ∷ 0xFE ∷ 0xBA ∷ 0xBF ∷ []

abbrev pub fat64_le : List ℕ
fat64_le = 0xBF ∷ 0xBA ∷ 0xFE ∷ 0xCA ∷ []

pub data BinaryOs : Type 0 where
  linux mac_os windows : BinaryOs

-- The magics that `detect_binary_os` takes for Mach-O.
unfoldable pub is_macho_magic : List ℕ → Bool
is_macho_magic m4 =
    bytes_eq m4 thin32_be
    || bytes_eq m4 thin64_be
    || bytes_eq m4 thin32_le
    || bytes_eq m4 thin64_le
    || bytes_eq m4 fat_be
    || bytes_eq m4 fat_le

-- The decision on the first four and the first two bytes.
unfoldable pub classify_magic : List ℕ → List ℕ → Option BinaryOs
unfolding is_macho_magic
classify_magic m4 m2 =
    if bytes_eq m4 elf_magic
    then some linux
    else if bytes_eq m4 dos_magic || bytes_eq m2 mz_magic
    then some windows
    else if is_macho_magic m4
    then some mac_os
    else none

unfoldable pub detect_binary_os : List ℕ → Option (Option BinaryOs)
unfolding classify_magic
detect_binary_os bin =
    if leb 4 (length bin)
    then (do m4 ← slice bin 0 4; m2 ← slice bin 0 2; some (classify_magic m4 m2))
    else some none

unfoldable pub arch_matches : String → String → Bool
arch_matches bin_arch host_arch =
    (str_eq bin_arch "x86_64" && str_eq host_arch "x86_64")
    || (str_eq bin_arch "aarch64" && str_eq host_arch "aarch64")
    || (str_eq bin_arch "arm" && str_eq host_arch "arm")
    || (str_eq bin_arch "x86" && str_eq host_arch "x86")
    || (str_eq bin_arch "riscv64" && str_eq host_arch "riscv64")
