-- ===== src/Binary/Detect.antt =====
-- Headers written by an independent encoder are read back: ELF files, and the records of a
-- universal Mach-O file.
use peer_deploy.Prelude.{
  ℕ, zero, suc, ◌+◌, ◌*◌, ◌/◌, ◌%◌, ◌<◌, ◌≤◌, String, ◌≡◌, refl, sym, ◌∙◌, ap, inl, inr, Bool, true,
  false, Option, none, some, List, [], ◌∷◌, ◌++◌, arith, length, get_elem?, length-append, ltb,
  ◌==◌, Bool-cases, Option-cases, ◌⊎◌,
}
use peer_deploy.Binary.Bytes.{linux, slice, bytes_eq, detect_binary_os, read32}
use mathlib.Core.List.{append-nil, append_assoc}
use peer_deploy.Binary.Safety.{read32-Runs}
use peer_deploy.Binary.Elf.{elf_machine, elf_arch_body, detect_elf_arch}
use peer_deploy.Binary.MachO.{macho_cputype_to_arch, push_arch, fat_loop}

-- The two bytes of `e_machine`.
abbrev pub machine_field : Bool → ℕ → List ℕ → List ℕ
machine_field true em rest = (em % 256) ∷ (em / 256) ∷ rest
machine_field false em rest = (em / 256) ∷ (em % 256) ∷ rest

-- An ELF image: the class byte, the byte order, twelve more bytes, and the machine code `em`.
abbrev pub elf_image : Bool → ℕ → ℕ → List ℕ → ℕ → List ℕ → List ℕ
elf_image little cls order pad em rest =
    0x7F ∷ b'E' ∷ b'L' ∷ b'F' ∷ cls ∷ order ∷ pad ++ machine_field little em rest

-- Past the end of the first list.
get_elem?_past {ℓ} :
    {A : Type ℓ} (xs ys : List A) (n i : ℕ)
    → length xs + i ≡ n
    → get_elem? (xs ++ ys) n ≡ get_elem? ys i
get_elem?_past [] ys n i h = ap (get_elem? ys) (omega arith)
get_elem?_past (x ∷ xs) ys zero i h = absurd (omega arith)
get_elem?_past (x ∷ xs) ys (suc n) i h = get_elem?_past xs ys n i (omega arith)

elf_arch_body-elf_image :
    (little : Bool) (cls order : ℕ) (pad : List ℕ) (em : ℕ) (rest : List ℕ)
    → length pad ≡ 12
    → (order == 1) ≡ little
    → elf_arch_body (elf_image little cls order pad em rest) ≡ some (elf_machine em)
unfolding elf_arch_body
elf_arch_body-elf_image true cls order pad em rest h k =
    let tail = (em % 256) ∷ (em / 256) ∷ rest in
    ground (
      arith,
      length-append {0} pad tail,
      get_elem?_past pad tail 12 0,
      get_elem?_past pad tail 13 1,
    )
elf_arch_body-elf_image false cls order pad em rest h k =
    let tail = (em / 256) ∷ (em % 256) ∷ rest in
    ground (
      arith,
      length-append {0} pad tail,
      get_elem?_past pad tail 12 0,
      get_elem?_past pad tail 13 1,
    )

length-elf_image :
    (little : Bool) (cls order : ℕ) (pad : List ℕ) (em : ℕ) (rest : List ℕ)
    → length pad ≡ 12
    → 20 ≤ length (elf_image little cls order pad em rest)
length-elf_image true cls order pad em rest h =
    omega (arith, length-append {0} pad ((em % 256) ∷ (em / 256) ∷ rest))
length-elf_image false cls order pad em rest h =
    omega (arith, length-append {0} pad ((em / 256) ∷ (em % 256) ∷ rest))

-- An ELF image with a full header is taken for a Linux binary of exactly the architecture that its
-- machine code stands for, in either byte order, whatever the rest of the file.
pub detect_elf_arch-elf_image :
    (little : Bool) (cls order : ℕ) (pad : List ℕ) (em : ℕ) (rest : List ℕ)
    → length pad ≡ 12
    → (order == 1) ≡ little
    → (detect_binary_os (elf_image little cls order pad em rest) ≡ some (some linux))
      × (detect_elf_arch (elf_image little cls order pad em rest) ≡ some (elf_machine em))
unfolding detect_elf_arch detect_binary_os slice bytes_eq
detect_elf_arch-elf_image little cls order pad em rest h k = (
  ground arith,
  ground (
    arith,
    length-elf_image little cls order pad em rest h,
    elf_arch_body-elf_image little cls order pad em rest h k,
  ),
)

-- The architectures of the first `k` records, read independently of the loop.
abbrev pub record_arches : Bool → ℕ → List ℕ → ℕ → ℕ → List String
record_arches be size bin off zero = []
record_arches be size bin off (suc k) = elim (read32 be bin off) [
  | none ↦ []
  | some c ↦ push_arch (macho_cputype_to_arch c) [] ++ record_arches be size bin (off + size) k
]

-- What the loop does with the records from `off` on: `k` of them are read.
pub record FatReads (be : Bool) (size : ℕ) (bin : List ℕ) (n off : ℕ) (arches : List String)
    : Type 0 where
  pub k : ℕ
  pub at_most : k ≤ n
  pub within : off + k * size ≤ length bin
  pub maximal : (k ≡ n) ⊎ (length bin < off + suc k * size)
  pub result : fat_loop be size bin n off arches ≡ some (arches ++ record_arches be size bin off k)

push_arch-append :
    (a : Option String) (arches : List String) → push_arch a arches ≡ arches ++ push_arch a []
push_arch-append none arches = sym (append-nil arches)
push_arch-append (some a) arches = refl

record_arches-suc :
    (be : Bool) (size : ℕ) (bin : List ℕ) (off k : ℕ) (c : ℕ)
    → read32 be bin off ≡ some c
    → record_arches be size bin off (suc k)
      ≡ push_arch (macho_cputype_to_arch c) [] ++ record_arches be size bin (off + size) k
record_arches-suc be size bin off k c e = ground arith

-- One record more.
FatReads-suc :
    (be : Bool) (size : ℕ) (bin : List ℕ) (n off : ℕ) (arches : List String) (c : ℕ)
    → ltb (length bin) (off + size) ≡ false
    → read32 be bin off ≡ some c
    → FatReads be size bin n (off + size) (push_arch (macho_cputype_to_arch c) arches)
    → FatReads be size bin (suc n) off arches
unfolding fat_loop
FatReads-suc be size bin n off arches c fits e r = record {
  k = suc r.k;
  at_most = omega (arith, r.at_most);
  within = omega (arith, r.within);
  maximal = omega (arith, r.maximal);
  result =
      rw (fits, e, fat_loop)
        (r.result
          ∙ ap some (
              rw (push_arch-append (macho_cputype_to_arch c) arches, append_assoc)
                (ap (λ l. arches ++ l) (sym (record_arches-suc be size bin off r.k c e)))));
}

-- The loop over the records of a universal binary collects the architectures of exactly the
-- records that lie whole within the file, at most as many as the header counts, in file order.
pub fat_loop-FatReads :
    (be : Bool) (size : ℕ) (bin : List ℕ) (n off : ℕ) (arches : List String)
    → 4 ≤ size
    → off ≤ length bin
    → FatReads be size bin n off arches
unfolding fat_loop
fat_loop-FatReads be size bin zero off arches h l = record {
  k = 0;
  at_most = omega arith;
  within = omega arith;
  maximal = inl refl;
  result = rw (append-nil arches);
}
fat_loop-FatReads be size bin (suc n) off arches h l =
    elim (Bool-cases (ltb (length bin) (off + size))) [
      | inl short ↦ record {
        k = 0;
        at_most = omega arith;
        within = omega arith;
        maximal = inr (ground arith);
        result = rw (short, fat_loop) (rw (append-nil arches));
      }
      | inr fits ↦ elim (Option-cases (read32 be bin off)) [
        | inl bad ↦ absurd (read32-Runs be bin off (ground arith) bad)
        | inr (c, e) ↦ FatReads-suc be size bin n off arches c fits e (
            fat_loop-FatReads be size bin n (off + size)
              (push_arch (macho_cputype_to_arch c) arches) h (ground arith))
      ]
    ]
