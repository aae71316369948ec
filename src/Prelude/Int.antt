-- ===== src/Prelude/Int.antt =====
-- Signed integers over the native numbers: `i32` exit codes.
use Prim.Native.Nat.{ℕ, ◌+◌}
use Prim.Native.String.{String}
use mathlib.Core.Bool.{Bool, false}
use mathlib.Core.List.{[], ◌∷◌}
use peer_deploy.Prelude.Tests.{◌==◌}
use peer_deploy.Prelude.Text.{concat, format_u64}

-- `negsuc n` is -(n + 1).
pub data ℤ : Type 0 where
  pos : ℕ → ℤ
  negsuc : ℕ → ℤ

abbrev pub is_zero : ℤ → Bool
is_zero (pos n) = n == 0
is_zero (negsuc n) = false

-- `{}` of a signed integer.
unfoldable pub format_i32 : ℤ → String
format_i32 (pos n) = format_u64 n
format_i32 (negsuc n) = concat ("-" ∷ format_u64 (n + 1) ∷ [])
