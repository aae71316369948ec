-- ===== src/Binary/MachO.antt =====
-- `detect_macho_arches` and `macho_cputype_to_arch` of crates/agent/src/p2p/handlers/util.rs.
use peer_deploy.Prelude.{
  ℕ, zero, suc, ◌+◌, ◌/◌, ◌%◌, String, Bool, true, false, ◌||◌, Option, none, some, List, [], ◌∷◌,
  ◌++◌, length, ltb, ◌==◌, not, if◌then◌else◌,
}
use peer_deploy.Prelude.Outcome.{◌>>=◌}
use peer_deploy.Binary.Bytes.{
  slice, bytes_eq, read32, thin32_be, thin64_be, thin32_le, thin64_le, fat_be, fat_le, fat64_be,
  fat64_le,
}

-- `cputype & 0x00FF_FFFF` is the remainder by 2 ^ 24, and `cputype & 0x0100_0000` is bit 24.
unfoldable pub macho_cputype_to_arch : ℕ → Option String
macho_cputype_to_arch cputype =
    let base = cputype % 0x1000000 in
    let is64 = not ((cputype / 0x1000000) % 2 == 0) in
    if base == 7
    then (if is64 then some "x86_64" else some "x86")
    else if base == 12
    then (if is64 then some "aarch64" else some "arm")
    else none

-- `if let Some(a) = macho_cputype_to_arch(cputype) { arches.push(a) }`
abbrev pub push_arch : Option String → List String → List String
push_arch none arches = arches
push_arch (some a) arches = arches ++ a ∷ []

-- `for _ in 0..nfat_arch`, on the rounds left; the `break` returns.
unfoldable pub fat_loop : Bool → ℕ → List ℕ → ℕ → ℕ → List String → Option (List String)
fat_loop be rec_size bin zero off arches = some arches
fat_loop be rec_size bin (suc n) off arches = elim (ltb (length bin) (off + rec_size)) [
  | true ↦ some arches
  | false ↦ (read32 be bin off) >>= (λ cputype.
      fat_loop be rec_size bin n (off + rec_size)
        (push_arch (macho_cputype_to_arch cputype) arches))
]

-- `if arches.is_empty() { None } else { Some(arches) }`
abbrev pub nonempty : List String → Option (List String)
nonempty [] = none
nonempty (a ∷ arches) = some (a ∷ arches)

unfoldable pub fat_arches : List ℕ → List ℕ → Option (Option (List String))
fat_arches m4 bin =
    let be = bytes_eq m4 fat_be || bytes_eq m4 fat64_be in
    if ltb (length bin) 12 then some none else (do
      nfat_arch ← read32 be bin 4
      let rec_size = if bytes_eq m4 fat64_be || bytes_eq m4 fat64_le then 32 else 20
      arches ← fat_loop be rec_size bin nfat_arch 8 []
      some (nonempty arches))

-- `map(|s| vec![s.to_string()])`
abbrev pub one_arch : Option String → Option (List String)
one_arch none = none
one_arch (some a) = some (a ∷ [])

unfoldable pub thin_arches : List ℕ → List ℕ → Option (Option (List String))
thin_arches m4 bin =
    let be = bytes_eq m4 thin32_be || bytes_eq m4 thin64_be in
    if ltb (length bin) 8
    then some none
    else (do cputype ← read32 be bin 4; some (one_arch (macho_cputype_to_arch cputype)))

unfoldable pub is_fat_magic : List ℕ → Bool
is_fat_magic m4 =
    bytes_eq m4 fat_be || bytes_eq m4 fat_le || bytes_eq m4 fat64_be || bytes_eq m4 fat64_le

unfoldable pub is_thin_magic : List ℕ → Bool
is_thin_magic m4 =
    bytes_eq m4 thin32_be || bytes_eq m4 thin64_be || bytes_eq m4 thin32_le || bytes_eq m4 thin64_le

-- The branches on the magic number.
unfoldable pub arches_by_magic : List ℕ → List ℕ → Option (Option (List String))
unfolding is_fat_magic is_thin_magic fat_arches thin_arches
arches_by_magic bin m4 =
    if is_fat_magic m4
    then fat_arches m4 bin
    else if is_thin_magic m4
    then thin_arches m4 bin
    else some none

unfoldable pub detect_macho_arches : List ℕ → Option (Option (List String))
unfolding arches_by_magic
detect_macho_arches bin =
    if ltb (length bin) 8 then some none else slice bin 0 4 >>= arches_by_magic bin
