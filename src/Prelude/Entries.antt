-- ===== src/Prelude/Entries.antt =====
-- Predicates on the entries of a map, and maps with no key twice.
use peer_deploy.Prelude.Dict.{
  Dict, get, insert, insert_sorted, remove, modify, get-insert, get-modify,
}
use peer_deploy.Prelude.Tests.{Bool-cases}
use Prim.Native.String.{String, compare}
use mathlib.Core.Path.{◌≡◌, refl, subst, sym}
use mathlib.Core.Logic.{inl, inr}
use mathlib.Core.Option.{none, some}
use mathlib.Core.List.{[], ◌∷◌}
use native.Mathlib.Omega.{arith}
use text.Mathlib.Text.{◌==◌, is_lt}
use text.Mathlib.TextEquality.{eq_iff}
use text.Mathlib.TextPositions.{eq_refl}

module _ {ℓ κ} {V : Type ℓ} (P : String → V → Type κ) where
  abbrev pub Entries : Dict V → Type κ
  Entries [] = Unit
  Entries ((k, v) ∷ m) = P k v × Entries m

  pub Entries-insert :
      (k : String) (v : V) (m : Dict V) → P k v → Entries m → Entries (insert k v m)
  unfolding insert
  Entries-insert k v [] h hm = (h, tt)
  Entries-insert k v ((j, w) ∷ m) h hm = elim (Bool-cases (j == k)) [
    | inl same ↦ rw (same) (h, hm.1)
    | inr other ↦ rw (other) (hm.0, Entries-insert k v m h hm.1)
  ]

  pub Entries-insert_sorted :
      (k : String) (v : V) (m : Dict V) → P k v → Entries m → Entries (insert_sorted k v m)
  unfolding insert_sorted
  Entries-insert_sorted k v [] h hm = (h, tt)
  Entries-insert_sorted k v ((j, w) ∷ m) h hm = elim (Bool-cases (j == k)) [
    | inl same ↦ rw (same) (h, hm.1)
    | inr other ↦ rw (other) (elim (Bool-cases (is_lt (compare k j))) [
      | inl lt ↦ rw (lt) (h, hm)
      | inr ge ↦ rw (ge) (hm.0, Entries-insert_sorted k v m h hm.1)
    ])
  ]

  pub Entries-modify :
      (k : String) (f : V → V) (m : Dict V)
      → ((v : V) → P k v → P k (f v))
      → Entries m
      → Entries (modify k f m)
  unfolding modify
  Entries-modify k f [] keep hm = tt
  Entries-modify k f ((j, w) ∷ m) keep hm = elim (Bool-cases (j == k)) [
    | inl same ↦
        let e = (eq_iff j k).0 same in
        rw same (subst (λ i. P i (f w)) (sym e) (keep w (subst (λ i. P i w) e hm.0)), hm.1)
    | inr other ↦ rw other (hm.0, Entries-modify k f m keep hm.1)
  ]

  pub Entries-remove : (k : String) (m : Dict V) → Entries m → Entries (remove k m)
  unfolding remove
  Entries-remove k [] hm = tt
  Entries-remove k ((j, w) ∷ m) hm = elim (Bool-cases (j == k)) [
    | inl same ↦ rw (same) (Entries-remove k m hm.1)
    | inr other ↦ rw (other) (hm.0, Entries-remove k m hm.1)
  ]

  pub Entries-get : (k : String) (v : V) (m : Dict V) → Entries m → get m k ≡ some v → P k v
  unfolding get
  Entries-get k v [] hm e = absurd (ground arith)
  Entries-get k v ((j, w) ∷ m) hm e = elim (Bool-cases (j == k)) [
    | inl same ↦ subst (λ i. P i v) ((eq_iff j k).0 same) (subst (P j) (ground arith) hm.0)
    | inr other ↦ Entries-get k v m hm.1 (ground arith)
  ]

module _ {ℓ} {V : Type ℓ} where
  -- No key is listed twice.
  abbrev pub NodupKeys : Dict V → Type ℓ
  NodupKeys [] = Unit
  NodupKeys ((k, v) ∷ m) = (get m k ≡ none) × NodupKeys m

  pub NodupKeys-insert : (k : String) (v : V) (m : Dict V) → NodupKeys m → NodupKeys (insert k v m)
  unfolding insert get
  NodupKeys-insert k v [] h = (refl, tt)
  NodupKeys-insert k v ((j, w) ∷ m) h =
      ground (arith, eq_iff j k, eq_iff k j, get-insert k j v m, NodupKeys-insert k v m h.1)

  pub NodupKeys-modify :
      (k : String) (f : V → V) (m : Dict V) → NodupKeys m → NodupKeys (modify k f m)
  unfolding modify get
  NodupKeys-modify k f [] h = tt
  NodupKeys-modify k f ((j, w) ∷ m) h =
      ground (arith, eq_iff j k, eq_iff k j, get-modify k j f m, NodupKeys-modify k f m h.1)

-- A predicate that holds of whatever a key leads to holds of every entry.
pub Entries-all {ℓ κ} :
    {V : Type ℓ} (P : String → V → Type κ) (m : Dict V)
    → NodupKeys m
    → ((k : String) (v : V) → get m k ≡ some v → P k v)
    → Entries P m
unfolding get
Entries-all P [] n f = tt
Entries-all P ((j, w) ∷ m) n f = (
  f j w (ground (arith, eq_refl j)),
  Entries-all P m n.1 (λ k v h. f k v (ground (arith, n.0, eq_iff j k, h))),
)
