-- ===== src/Prelude/Sort.antt =====
-- Rust's stable `sort_by`: insertion that keeps equal elements in order.
use mathlib.Core.List.{List, [], ◌∷◌, Perm}
use mathlib.Core.List.Perm
use Prim.Native.Nat.{ℕ, ◌≤◌}
use native.Mathlib.Omega.{arith}
use peer_deploy.Prelude.Tests.{leb, if◌then◌else◌, Bool-cases}
use peer_deploy.Prelude.Lists.{All}
use mathlib.Core.Logic.{inl, inr}

-- `sort_by_key(key)`: ascending keys, equal keys in their old order.
module _ {ℓ} {A : Type ℓ} (key : A → ℕ) where
  unfoldable pub insert_by_key : A → List A → List A
  insert_by_key a [] = a ∷ []
  insert_by_key a (b ∷ l) =
      let rest = insert_by_key a l in if leb (key a) (key b) then a ∷ b ∷ l else b ∷ rest

  unfoldable pub sort_by_key : List A → List A
  unfolding insert_by_key
  sort_by_key [] = []
  sort_by_key (a ∷ l) = insert_by_key a (sort_by_key l)

  -- Every element is at most those behind it.
  abbrev pub IsSorted : List A → Type 0
  IsSorted [] = Unit
  IsSorted (a ∷ l) = All (λ b. key a ≤ key b) l × IsSorted l

  All-insert_by_key :
      (P : A → Type 0) (a : A) (l : List A) → P a → All P l → All P (insert_by_key a l)
  unfolding insert_by_key
  All-insert_by_key P a [] h hl = (h, tt)
  All-insert_by_key P a (b ∷ l) h hl = ground (arith, All-insert_by_key P a l h hl.1)

  All-weaken : (m n : ℕ) (l : List A) → m ≤ n → All (λ b. n ≤ key b) l → All (λ b. m ≤ key b) l
  All-weaken m n [] h hl = tt
  All-weaken m n (b ∷ l) h hl = (omega (arith, hl.0), All-weaken m n l h hl.1)

  insert_by_key-IsSorted : (a : A) (l : List A) → IsSorted l → IsSorted (insert_by_key a l)
  unfolding insert_by_key
  insert_by_key-IsSorted a [] h = (tt, tt)
  insert_by_key-IsSorted a (b ∷ l) h = elim (Bool-cases (leb (key a) (key b))) [
    | inl le ↦ rw (le) ((ground arith, All-weaken (key a) (key b) l (ground arith) h.0), h)
    | inr gt ↦ rw (gt) (
      All-insert_by_key (λ c. key b ≤ key c) a l (ground arith) h.0,
      insert_by_key-IsSorted a l h.1,
    )
  ]

  pub sort_by_key-IsSorted : (l : List A) → IsSorted (sort_by_key l)
  unfolding sort_by_key
  sort_by_key-IsSorted [] = tt
  sort_by_key-IsSorted (a ∷ l) = insert_by_key-IsSorted a (sort_by_key l) (sort_by_key-IsSorted l)

  insert_by_key-perm : (a : A) (l : List A) → Perm (insert_by_key a l) (a ∷ l)
  unfolding insert_by_key
  insert_by_key-perm a [] = Perm.refl (a ∷ [])
  insert_by_key-perm a (b ∷ l) = elim (Bool-cases (leb (key a) (key b))) [
    | inl le ↦ rw (le) (Perm.refl (a ∷ b ∷ l))
    | inr gt ↦ rw (gt) (Perm.trans (Perm.cons b (insert_by_key-perm a l)) (Perm.swap a b l))
  ]

  pub sort_by_key-perm : (l : List A) → Perm (sort_by_key l) l
  unfolding sort_by_key
  sort_by_key-perm [] = Perm.refl []
  sort_by_key-perm (a ∷ l) =
      Perm.trans (insert_by_key-perm a (sort_by_key l)) (Perm.cons a (sort_by_key-perm l))
