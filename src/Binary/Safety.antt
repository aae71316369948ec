-- ===== src/Binary/Safety.antt =====
-- No input makes the sniffer of crates/agent/src/p2p/handlers/util.rs panic.
use peer_deploy.Prelude.{
  ℕ, zero, suc, ◌+◌, ◌≤◌, String, ◌≡◌, ◌≢◌, refl, inl, inr, Bool, true, false, not, Option, none,
  some, List, [], arith, str_eq, length, get_elem?_lt, ltb, leb, Bool-cases, if◌then◌else◌,
}
use peer_deploy.Prelude.Outcome.{◌>>=◌}
use peer_deploy.Binary.Bytes.{
  bytes_eq, elf_magic, mz_magic, BinaryOs, linux, mac_os, windows, slice, read32, detect_binary_os,
}
use peer_deploy.Binary.Elf.{elf_arch_body, detect_elf_arch}
use peer_deploy.Binary.MachO.{
  is_fat_magic, is_thin_magic, fat_loop, fat_arches, thin_arches, push_arch, macho_cputype_to_arch,
  arches_by_magic, detect_macho_arches,
}
use peer_deploy.Binary.Pe.{pe_header, detect_pe_arch}
use peer_deploy.Binary.Host.{match_os, binary_target_matches_host}

-- The computation does not panic.
abbrev pub Runs {ℓ} : {A : Type ℓ} → Option A → Type ℓ
Runs o = o ≢ none

pub slice-Runs : (bin : List ℕ) (a b : ℕ) → a ≤ b → b ≤ length bin → Runs (slice bin a b)
unfolding slice
slice-Runs bin a b h k = ground arith

pub read32-Runs :
    (be : Bool) (bin : List ℕ) (off : ℕ) → off + 4 ≤ length bin → Runs (read32 be bin off)
unfolding read32
read32-Runs be bin off h = ground (
  arith,
  get_elem?_lt bin off,
  get_elem?_lt bin (off + 1),
  get_elem?_lt bin (off + 2),
  get_elem?_lt bin (off + 3),
)

pub bind-Runs {ℓ κ} :
    {A : Type ℓ} {B : Type κ} (o : Option A) (f : A → Option B)
    → Runs o
    → ((a : A) → Runs (f a))
    → Runs (o >>= f)
bind-Runs none f h k = absurd (h refl)
bind-Runs (some a) f h k = k a

fat_loop-Runs :
    (be : Bool) (size : ℕ) (bin : List ℕ) (n off : ℕ) (arches : List String)
    → 4 ≤ size
    → Runs (fat_loop be size bin n off arches)
unfolding fat_loop
fat_loop-Runs be size bin zero off arches h = ground arith
fat_loop-Runs be size bin (suc n) off arches h = elim (Bool-cases (ltb (length bin) (off + size))) [
  | inl short ↦ rw (short, fat_loop) (ground arith)
  | inr fits ↦
      rw (fits, fat_loop)
        (bind-Runs (read32 be bin off) _ (read32-Runs be bin off (ground arith)) (λ c.
          fat_loop-Runs be size bin n (off + size) (push_arch (macho_cputype_to_arch c) arches) h))
]

-- A test that returns a value or goes on.
if-Runs {ℓ} :
    {A : Type ℓ} (b : Bool) (x y : Option A)
    → (b ≡ true → Runs x)
    → (b ≡ false → Runs y)
    → Runs (if b then x else y)
if-Runs true x y hx hy = hx refl
if-Runs false x y hx hy = hy refl

some-Runs {ℓ} : {A : Type ℓ} (a : A) → Runs (some a)
some-Runs a e = cc

detect_binary_os-Runs : (bin : List ℕ) → Runs (detect_binary_os bin)
unfolding detect_binary_os slice
detect_binary_os-Runs bin =
    if-Runs (leb 4 (length bin)) _ _
      (λ e. bind-Runs (slice bin 0 4) _ (slice-Runs bin 0 4 (omega arith) (ground arith)) (λ m4.
        bind-Runs (slice bin 0 2) _ (slice-Runs bin 0 2 (omega arith) (ground arith))
          (λ m2. some-Runs _)))
      (λ e. some-Runs _)

elf_arch_body-Runs : (bin : List ℕ) → 20 ≤ length bin → Runs (elf_arch_body bin)
unfolding elf_arch_body
elf_arch_body-Runs bin h =
    ground (arith, get_elem?_lt bin 5, get_elem?_lt bin 18, get_elem?_lt bin (18 + 1))

detect_elf_arch-Runs : (bin : List ℕ) → Runs (detect_elf_arch bin)
unfolding detect_elf_arch
detect_elf_arch-Runs bin =
    if-Runs (ltb (length bin) 20) _ _ (λ e. some-Runs _)
      (λ e. bind-Runs (slice bin 0 4) _ (slice-Runs bin 0 4 (omega arith) (ground arith)) (λ m4.
        if-Runs (not (bytes_eq m4 elf_magic)) (some none) (elf_arch_body bin) (λ e'. some-Runs _)
          (λ e'. elf_arch_body-Runs bin (ground arith))))

fat_arches-Runs : (m4 bin : List ℕ) → Runs (fat_arches m4 bin)
unfolding fat_arches
fat_arches-Runs m4 bin =
    if-Runs (ltb (length bin) 12) _ _ (λ e. some-Runs _)
      (λ e. bind-Runs (read32 _ bin 4) _ (read32-Runs _ bin 4 (ground arith)) (λ n.
        bind-Runs (fat_loop _ _ bin n 8 []) _ (fat_loop-Runs _ _ bin n 8 [] (ground arith))
          (λ arches. some-Runs _)))

thin_arches-Runs : (m4 bin : List ℕ) → Runs (thin_arches m4 bin)
unfolding thin_arches
thin_arches-Runs m4 bin =
    if-Runs (ltb (length bin) 8) _ _ (λ e. some-Runs _)
      (λ e. bind-Runs (read32 _ bin 4) _ (read32-Runs _ bin 4 (ground arith)) (λ n. some-Runs _))

arches_by_magic-Runs : (bin m4 : List ℕ) → Runs (arches_by_magic bin m4)
unfolding arches_by_magic
arches_by_magic-Runs bin m4 =
    if-Runs (is_fat_magic m4) (fat_arches m4 bin) _ (λ e. fat_arches-Runs m4 bin)
      (λ e.
        if-Runs (is_thin_magic m4) (thin_arches m4 bin) (some none) (λ e'. thin_arches-Runs m4 bin)
          (λ e'. some-Runs _))

detect_macho_arches-Runs : (bin : List ℕ) → Runs (detect_macho_arches bin)
unfolding detect_macho_arches
detect_macho_arches-Runs bin =
    if-Runs (ltb (length bin) 8) _ _ (λ e. some-Runs _)
      (λ e.
        bind-Runs (slice bin 0 4) _ (slice-Runs bin 0 4 (omega arith) (ground arith))
          (arches_by_magic-Runs bin))

pe_header-Runs : (bin : List ℕ) (pe_off : ℕ) → Runs (pe_header bin pe_off)
unfolding pe_header
pe_header-Runs bin pe_off =
    if-Runs (ltb (length bin) (pe_off + 6)) _ _ (λ e. some-Runs _)
      (λ e.
        bind-Runs (slice bin pe_off (pe_off + 4)) _
          (slice-Runs bin pe_off (pe_off + 4) (omega arith) (ground arith))
          (λ sig. ground (arith, get_elem?_lt bin (pe_off + 4), get_elem?_lt bin (pe_off + 5))))

detect_pe_arch-Runs : (bin : List ℕ) → Runs (detect_pe_arch bin)
unfolding detect_pe_arch
detect_pe_arch-Runs bin =
    if-Runs (ltb (length bin) 0x40) _ _ (λ e. some-Runs _)
      (λ e. bind-Runs (slice bin 0 2) _ (slice-Runs bin 0 2 (omega arith) (ground arith)) (λ m2.
        if-Runs (not (bytes_eq m2 mz_magic)) (some none) _ (λ e'. some-Runs _)
          (λ e'.
            bind-Runs (read32 false bin 0x3C) _ (read32-Runs false bin 0x3C (ground arith))
              (pe_header-Runs bin))))

match_os-Runs :
    (host_os host_arch : String) (bin : List ℕ) (o : Option BinaryOs)
    → Runs (match_os host_os host_arch bin o)
unfolding match_os
match_os-Runs host_os host_arch bin (some linux) =
    if-Runs (not (str_eq host_os "linux")) _ _ (λ e. some-Runs _)
      (λ e. bind-Runs _ _ (detect_elf_arch-Runs bin) (λ a. some-Runs _))
match_os-Runs host_os host_arch bin (some mac_os) =
    if-Runs (not (str_eq host_os "macos")) _ _ (λ e. some-Runs _)
      (λ e. bind-Runs _ _ (detect_macho_arches-Runs bin) (λ a. some-Runs _))
match_os-Runs host_os host_arch bin (some windows) =
    if-Runs (not (str_eq host_os "windows")) _ _ (λ e. some-Runs _)
      (λ e. bind-Runs _ _ (detect_pe_arch-Runs bin) (λ a. some-Runs _))
match_os-Runs host_os host_arch bin none = some-Runs _

-- Whatever the bytes of the binary, the sniffer of an agent that is built with a 64-bit `usize` ends
-- with a verdict on every operating system and architecture: no index and no slice is out of bounds.
-- On 32 bits the offset of the PE header may wrap, which is left out.
pub binary_target_matches_host-ne-none :
    (host_os host_arch : String) (bin : List ℕ)
    → binary_target_matches_host host_os host_arch bin ≢ none
unfolding binary_target_matches_host
binary_target_matches_host-ne-none host_os host_arch bin =
    bind-Runs _ _ (detect_binary_os-Runs bin) (match_os-Runs host_os host_arch bin)
