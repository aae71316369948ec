-- ===== src/Prelude/TextOrder.antt =====
-- The order of texts, Rust's `Ord` on `String`.
use peer_deploy.Prelude.Tests.{ltb, ◌==◌, Bool-cases}
use Prim.Native.Nat.{ℕ, ◌<◌, compare as compare_ℕ}
use Prim.Native.Char.{Char, code}
use Prim.Native.String.{String, then, compare}
use Prim.Native.String.compare
use mathlib.Core.Path.{◌≡◌, refl, sym, ◌∙◌, ap}
use mathlib.Core.Logic.{◌⊎◌, inl, inr}
use mathlib.Core.Bool.{true}
use native.Mathlib.Omega.{arith}
use text.Mathlib.Text.{is_lt}
use text.Mathlib.TextPositions.{compare_refl}
use text.Mathlib.TextEquality.{codes_equal}

abbrev pub Lt : String → String → Type 0
Lt s t = is_lt (compare s t) ≡ true

pub lt_irrefl : (s : String) → Lt s s → ⊥
lt_irrefl s h = ground (arith, h, ap is_lt (compare_refl s))

-- The first characters decide, and the rest where they are equal.
cons_lt :
    (c d : Char) (s t : String)
    → Lt (String.◌∷◌ c s) (String.◌∷◌ d t)
    → is_lt (then (compare_ℕ (code c) (code d)) (compare s t)) ≡ true
cons_lt c d s t h = ap is_lt (sym (compare.cons-cons c d s t)) ∙ h

pub lt_trans : (s t u : String) → Lt s t → Lt t u → Lt s u
lt_trans String.[] String.[] u h k = absurd (lt_irrefl String.[] h)
lt_trans String.[] (String.◌∷◌ d t) String.[] h k =
    absurd (ground (arith, k, ap is_lt (compare.cons-nil d t)))
lt_trans String.[] (String.◌∷◌ d t) (String.◌∷◌ e u) h k = ap is_lt (compare.nil-cons e u)
lt_trans (String.◌∷◌ c s) String.[] u h k =
    absurd (ground (arith, h, ap is_lt (compare.cons-nil c s)))
lt_trans (String.◌∷◌ c s) (String.◌∷◌ d t) String.[] h k =
    absurd (ground (arith, k, ap is_lt (compare.cons-nil d t)))
lt_trans (String.◌∷◌ c s) (String.◌∷◌ d t) (String.◌∷◌ e u) h k =
    ap is_lt (compare.cons-cons c e s u)
    ∙ ground (arith, cons_lt c d s t h, cons_lt d e t u k, lt_trans s t u)

lt_cases : (m n : ℕ) → (m < n) ⊎ (m ≡ n) ⊎ (n < m)
lt_cases m n = elim (Bool-cases (ltb m n)) [
  | inl below ↦ inl (ground arith)
  | inr above ↦ elim (Bool-cases (m == n)) [
    | inl same ↦ inr (inl (ground arith))
    | inr differ ↦ inr (inr (ground arith))
  ]
]

-- Two texts are equal, or one is below the other.
pub lt_total : (s t : String) → Lt s t ⊎ (s ≡ t) ⊎ Lt t s
lt_total String.[] String.[] = inr (inl refl)
lt_total String.[] (String.◌∷◌ d t) = inl (ap is_lt (compare.nil-cons d t))
lt_total (String.◌∷◌ c s) String.[] = inr (inr (ap is_lt (compare.nil-cons c s)))
lt_total (String.◌∷◌ c s) (String.◌∷◌ d t) = elim (lt_cases (code c) (code d)) [
  | inl below ↦ inl (ap is_lt (compare.cons-cons c d s t) ∙ ground (arith, below))
  | inr (inr above) ↦ inr (inr (ap is_lt (compare.cons-cons d c t s) ∙ ground (arith, above)))
  | inr (inl same) ↦ elim (lt_total s t) [
    | inl below ↦ inl (ap is_lt (compare.cons-cons c d s t) ∙ ground (arith, same, below))
    | inr (inr above) ↦
        inr (inr (ap is_lt (compare.cons-cons d c t s) ∙ ground (arith, same, above)))
    | inr (inl equal) ↦ inr (
        inl (
          ap (λ x. String.◌∷◌ x s) (codes_equal c d (ground (arith, same)))
          ∙ ap (λ r. String.◌∷◌ d r) equal))
  ]
]
