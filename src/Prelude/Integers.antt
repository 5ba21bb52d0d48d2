-- ===== src/Prelude/Integers.antt =====
-- The integers that the source's `int` and `pid_t` hold, over the native numbers.
use Prim.Native.Nat.{ℕ, zero, suc}
use dbl_service.Prelude.Tests.{eqb}
use mathlib.Core.Bool.{Bool, true, false}

-- negsuc n is -(n + 1).
pub data ℤ : Type 0 where
  pos : ℕ → ℤ
  negsuc : ℕ → ℤ

-- x > 0
abbrev pub is_positive : ℤ → Bool
is_positive (pos zero) = false
is_positive (pos (suc n)) = true
is_positive (negsuc n) = false

-- x < 0
abbrev pub is_negative : ℤ → Bool
is_negative (pos n) = false
is_negative (negsuc n) = true

-- x == y
abbrev pub equals : ℤ → ℤ → Bool
equals (pos m) (pos n) = eqb m n
equals (negsuc m) (negsuc n) = eqb m n
equals m n = false
