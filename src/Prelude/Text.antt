-- ===== src/Prelude/Text.antt =====
-- Rust's `format!` on texts and unsigned integers.
use Prim.Native.Char.{code}
use Prim.Native.String.{String, ◌++◌ as append}
use Prim.Native.Nat.{ℕ, zero, suc, ◌+◌, ◌-◌, ◌*◌, ◌/◌, ◌%◌, ◌<◌}
use mathlib.Core.Path.{◌≡◌, ap, sym, ◌∙◌}
use mathlib.Core.List.{List, [], ◌∷◌}
use native.Mathlib.Omega.{arith}
use text.Mathlib.TextLemmas.{nil-append, cons-append}
use peer_deploy.Prelude.Tests.{ltb, ◌==◌, if◌then◌else◌, Bool-cases}
use mathlib.Core.Logic.{inl, inr}

-- The pieces of a `format!`, one after the other.
unfoldable pub concat : List String → String
concat [] = ""
concat (s ∷ ss) = append s (concat ss)

unfoldable pub digit : ℕ → String
digit n =
    if n == 0
    then "0"
    else if n == 1
    then "1"
    else if n == 2
    then "2"
    else if n == 3
    then "3"
    else if n == 4
    then "4"
    else if n == 5
    then "5"
    else if n == 6
    then "6"
    else if n == 7
    then "7"
    else if n == 8
    then "8"
    else "9"

-- The decimal digits of `n`, for `n` below the fuel.
unfoldable pub decimal : ℕ → ℕ → String
decimal zero n = ""
decimal (suc f) n =
    let rest = append (decimal f (n / 10)) (digit (n % 10)) in if ltb n 10 then digit n else rest

-- `{}` of an unsigned integer.
unfoldable pub format_u64 : ℕ → String
unfolding decimal digit
format_u64 n = decimal (suc n) n

-- What a text of digits is worth, after a number `acc`.
value : ℕ → String → ℕ
value acc String.[] = acc
value acc (String.◌∷◌ c s) = value (acc * 10 + (code c - 48)) s

value-append : (s t : String) (acc : ℕ) → value acc (append s t) ≡ value (value acc s) t
unfolding value
value-append String.[] t acc = rw (nil-append t)
value-append (String.◌∷◌ c s) t acc =
    rw (cons-append c s t) (value-append s t (acc * 10 + (code c - 48)))

value-digit : (n acc : ℕ) → n < 10 → value acc (digit n) ≡ acc * 10 + n
unfolding value digit
value-digit zero acc h = omega arith
value-digit (suc zero) acc h = omega arith
value-digit (suc (suc zero)) acc h = omega arith
value-digit (suc (suc (suc zero))) acc h = omega arith
value-digit (suc (suc (suc (suc zero)))) acc h = omega arith
value-digit (suc (suc (suc (suc (suc zero))))) acc h = omega arith
value-digit (suc (suc (suc (suc (suc (suc zero)))))) acc h = omega arith
value-digit (suc (suc (suc (suc (suc (suc (suc zero))))))) acc h = omega arith
value-digit (suc (suc (suc (suc (suc (suc (suc (suc zero)))))))) acc h = omega arith
value-digit (suc (suc (suc (suc (suc (suc (suc (suc (suc zero))))))))) acc h = omega arith
value-digit (suc (suc (suc (suc (suc (suc (suc (suc (suc (suc n)))))))))) acc h =
    absurd (omega arith)

value-decimal : (f n : ℕ) → n < f → value 0 (decimal f n) ≡ n
unfolding decimal
value-decimal zero n h = elim h [ ]
value-decimal (suc f) n h = elim (Bool-cases (ltb n 10)) [
  | inl small ↦ rw (small) (value-digit n 0 (ground arith) ∙ omega arith)
  | inr large ↦ rw (large) (
      value-append (decimal f (n / 10)) (digit (n % 10)) 0
      ∙ value-digit (n % 10) _ (omega arith)
      ∙ omega (arith, value-decimal f (n / 10) (ground arith)))
]

-- Different numbers print differently.
pub format_u64_inj : (m n : ℕ) → format_u64 m ≡ format_u64 n → m ≡ n
unfolding format_u64
format_u64_inj m n e =
    sym (value-decimal (suc m) m (omega arith))
    ∙ ap (value 0) e
    ∙ value-decimal (suc n) n (omega arith)
