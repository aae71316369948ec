-- ===== src/P2p/Roles/Normal.antt =====
-- The sorted lists without repetitions that crates/agent/src/p2p/mod.rs makes of roles.
use Prim.Native.Nat.{Ordering}
use Prim.Native.String.{compare}
use mathlib.Core.Path.{subst}
use text.Mathlib.TextEquality.{path_by_compare}
use text.Mathlib.TextPositions.{compare_refl}
use text.Mathlib.Text.{is_le, is_lt}
use peer_deploy.Prelude.{
  String, ◌≡◌, refl, sym, ap, ◌∙◌, ◌⊎◌, inl, inr, true, false, ◌||◌, List, [], ◌∷◌, All, arith,
  str_eq, eq_iff, eq_refl, Bool-cases,
}
use peer_deploy.Prelude.TextOrder.{Lt, lt_irrefl, lt_trans, lt_total}
use peer_deploy.Common.Component.{contains}
use peer_deploy.P2p.Roles.{insert_text, sort, dedup_after, dedup, normalize}

-- Each text is below those behind it.
abbrev pub IsStrict : List String → Type 0
IsStrict [] = Unit
IsStrict (x ∷ xs) = All (Lt x) xs × IsStrict xs

-- Each text is at most those behind it.
abbrev Le : String → String → Type 0
Le s t = is_le (compare s t) ≡ true

abbrev IsSorted : List String → Type 0
IsSorted [] = Unit
IsSorted (x ∷ xs) = All (Le x) xs × IsSorted xs

le_of_lt : (s t : String) → Lt s t → Le s t
le_of_lt s t h = ground (arith, h)

of_order : (o : Ordering) → is_le o ≡ true → (o ≡ Ordering.eq) ⊎ (is_lt o ≡ true)
of_order Ordering.lt h = inr refl
of_order Ordering.eq h = inl refl
of_order Ordering.gt h = absurd (ground (arith, h))

le_cases : (s t : String) → Le s t → (s ≡ t) ⊎ Lt s t
le_cases s t h = elim (of_order (compare s t) h) [
  | inl same ↦ inl (path_by_compare s t same)
  | inr below ↦ inr below
]

-- What is not at most is above.
above_of : (s t : String) → is_le (compare s t) ≡ false → Lt t s
above_of s t h = elim (lt_total s t) [
  | inl below ↦ absurd (ground (arith, h, below))
  | inr (inl same) ↦
      let e = ap (λ u. is_le (compare s u)) same ∙ h in
      absurd (ground (arith, e, ap is_le (compare_refl s)))
  | inr (inr above) ↦ above
]

le_lt : (s t u : String) → Le s t → Lt t u → Lt s u
le_lt s t u h k = elim (le_cases s t h) [
  | inl same ↦ subst (λ r. Lt r u) (sym same) k
  | inr below ↦ lt_trans s t u below k
]

le_trans : (s t u : String) → Le s t → Le t u → Le s u
le_trans s t u h k = elim (le_cases t u k) [
  | inl same ↦ subst (λ r. Le s r) same h
  | inr below ↦ le_of_lt s u (le_lt s t u h below)
]

All-le : (r x : String) (xs : List String) → Le r x → All (Le x) xs → All (Le r) xs
All-le r x [] h hs = tt
All-le r x (y ∷ ys) h hs = (le_trans r x y h hs.0, All-le r x ys h hs.1)

All-insert_text :
    (P : String → Type 0) (r : String) (xs : List String)
    → P r
    → All P xs
    → All P (insert_text r xs)
unfolding insert_text
All-insert_text P r [] h hs = (h, tt)
All-insert_text P r (x ∷ xs) h hs = elim (Bool-cases (is_le (compare r x))) [
  | inl le ↦ rw (le) (h, hs)
  | inr gt ↦ rw (gt) (hs.0, All-insert_text P r xs h hs.1)
]

insert_text-IsSorted : (r : String) (xs : List String) → IsSorted xs → IsSorted (insert_text r xs)
unfolding insert_text
insert_text-IsSorted r [] h = (tt, tt)
insert_text-IsSorted r (x ∷ xs) h = elim (Bool-cases (is_le (compare r x))) [
  | inl le ↦ rw (le) ((le, All-le r x xs le h.0), h)
  | inr gt ↦ rw (gt) (
    All-insert_text (Le x) r xs (le_of_lt x r (above_of r x gt)) h.0,
    insert_text-IsSorted r xs h.1,
  )
]

sort-IsSorted : (xs : List String) → IsSorted (sort xs)
unfolding sort
sort-IsSorted [] = tt
sort-IsSorted (x ∷ xs) = insert_text-IsSorted x (sort xs) (sort-IsSorted xs)

All-lt : (r x : String) (xs : List String) → Lt r x → All (Lt x) xs → All (Lt r) xs
All-lt r x [] h hs = tt
All-lt r x (y ∷ ys) h hs = (lt_trans r x y h hs.0, All-lt r x ys h hs.1)

lt_of : (x y : String) → Le x y → str_eq y x ≡ false → Lt x y
lt_of x y h other = elim (le_cases x y h) [
  | inl same ↦ absurd (ground (arith, other, eq_iff y x, same))
  | inr below ↦ below
]

-- What follows a kept text is above it.
All-dedup_after :
    (x : String) (xs : List String) → All (Le x) xs → IsSorted xs → All (Lt x) (dedup_after x xs)
unfolding dedup_after
All-dedup_after x [] hs s = tt
All-dedup_after x (y ∷ ys) hs s = elim (Bool-cases (str_eq y x)) [
  | inl same ↦ rw (same) (All-dedup_after x ys hs.1 s.1)
  | inr other ↦
      let below = lt_of x y hs.0 other in
      rw other (below, All-lt x y (dedup_after y ys) below (All-dedup_after y ys s.0 s.1))
]

dedup_after-IsStrict :
    (x : String) (xs : List String) → All (Le x) xs → IsSorted xs → IsStrict (dedup_after x xs)
unfolding dedup_after
dedup_after-IsStrict x [] hs s = tt
dedup_after-IsStrict x (y ∷ ys) hs s = elim (Bool-cases (str_eq y x)) [
  | inl same ↦ rw (same) (dedup_after-IsStrict x ys hs.1 s.1)
  | inr other ↦ rw (other) (All-dedup_after y ys s.0 s.1, dedup_after-IsStrict y ys s.0 s.1)
]

dedup-IsStrict : (xs : List String) → IsSorted xs → IsStrict (dedup xs)
unfolding dedup
dedup-IsStrict [] s = tt
dedup-IsStrict (x ∷ xs) s = (All-dedup_after x xs s.0 s.1, dedup_after-IsStrict x xs s.0 s.1)

pub normalize-IsStrict : (roles : List String) → IsStrict (normalize roles)
unfolding normalize
normalize-IsStrict roles = dedup-IsStrict (sort roles) (sort-IsSorted roles)

contains-insert_text :
    (r x : String) (xs : List String)
    → contains (insert_text x xs) r ≡ (str_eq x r || contains xs r)
unfolding contains insert_text
contains-insert_text r x [] = refl
contains-insert_text r x (y ∷ ys) = ground (arith, contains-insert_text r x ys)

contains-sort : (r : String) (xs : List String) → contains (sort xs) r ≡ contains xs r
unfolding contains sort
contains-sort r [] = refl
contains-sort r (x ∷ xs) = ground (arith, contains-insert_text r x (sort xs), contains-sort r xs)

contains-dedup_after :
    (r x : String) (xs : List String)
    → (str_eq x r || contains (dedup_after x xs) r) ≡ (str_eq x r || contains xs r)
unfolding contains dedup_after
contains-dedup_after r x [] = refl
contains-dedup_after r x (y ∷ ys) =
    ground (arith, eq_iff y x, contains-dedup_after r x ys, contains-dedup_after r y ys)

-- Sorting and dropping repetitions loses no role and adds none.
pub contains-normalize : (r : String) (xs : List String) → contains (normalize xs) r ≡ contains xs r
unfolding normalize dedup contains
contains-normalize r xs = dedup_same (sort xs) ∙ contains-sort r xs
  where
    dedup_same : (l : List String) → contains (dedup l) r ≡ contains l r
    dedup_same [] = refl
    dedup_same (x ∷ l) = contains-dedup_after r x l

not_above : (x : String) (xs : List String) → All (Lt x) xs → contains xs x ≡ false
unfolding contains
not_above x [] h = refl
not_above x (y ∷ ys) h = elim (Bool-cases (str_eq y x)) [
  | inl same ↦ absurd (lt_irrefl x (subst (λ u. Lt x u) (ground (arith, eq_iff y x, same)) h.0))
  | inr other ↦ ground (arith, other, not_above x ys h.1)
]

-- What the tails of two strict lists with the same head contain.
tail_lem :
    (x r : String) (xs ys : List String)
    → All (Lt x) xs
    → All (Lt x) ys
    → (str_eq x r || contains xs r) ≡ (str_eq x r || contains ys r)
    → contains xs r ≡ contains ys r
tail_lem x r xs ys hx hy e = elim (Bool-cases (str_eq x r)) [
  | inl same ↦
      subst (λ u. contains xs u ≡ contains ys u) {x = x} {y = r} (ground (arith, eq_iff x r, same))
        (not_above x xs hx ∙ sym (not_above x ys hy))
  | inr other ↦ ground (arith, other, e)
]

-- A head that is below the other list is no member of it.
apart :
    (x y : String) (xs ys : List String)
    → Lt x y
    → All (Lt y) ys
    → (contains (x ∷ xs) x ≡ contains (y ∷ ys) x)
    → ⊥
unfolding contains
apart x y xs ys below hy e =
    ground (arith, e, eq_refl x, not_above x (y ∷ ys) (below, All-lt x y ys below hy))

-- Two strict lists with the same members are equal.
pub strict_ext :
    (xs ys : List String)
    → IsStrict xs
    → IsStrict ys
    → ((r : String) → contains xs r ≡ contains ys r)
    → xs ≡ ys
unfolding contains
strict_ext [] [] hx hy e = refl
strict_ext [] (y ∷ ys) hx hy e = absurd (ground (arith, e y, eq_refl y))
strict_ext (x ∷ xs) [] hx hy e = absurd (ground (arith, e x, eq_refl x))
strict_ext (x ∷ xs) (y ∷ ys) hx hy e = elim (lt_total x y) [
  | inl below ↦ absurd (apart x y xs ys below hy.0 (e x))
  | inr (inr above) ↦ absurd (apart y x ys xs above hx.0 (sym (e y)))
  | inr (inl same) ↦
      let below = subst (λ u. All (Lt u) ys) (sym same) hy.0 in
      let e' = subst (λ u. (r : String) → contains (x ∷ xs) r ≡ contains (u ∷ ys) r) (sym same) e in
      ap (λ l. x ∷ l) (strict_ext xs ys hx.1 hy.1 (λ r. tail_lem x r xs ys hx.0 below (e' r)))
      ∙ ap (λ u. u ∷ ys) same
]
