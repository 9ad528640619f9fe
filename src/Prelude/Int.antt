-- ===== src/Prelude/Int.antt =====
-- Python's integers where the source tests for negative values, under the library's names.
use Prim.Native.Nat.{ℕ, suc}
use mathlib.Core.Bool.{Bool, true, false}
use modyn.Prelude.Tests.{ltb, leb}

-- `negsuc n` is -(n + 1).
pub data ℤ : Type 0 where
  pos : ℕ → ℤ
  negsuc : ℕ → ℤ

-- `a < 0`
abbrev pub is_negative : ℤ → Bool
is_negative (pos n) = false
is_negative (negsuc n) = true

-- `a <= b` for a number `b` that is not negative, and `b < a`.
abbrev pub le_nat : ℤ → ℕ → Bool
le_nat (pos n) b = leb n b
le_nat (negsuc n) b = true

abbrev pub lt_nat : ℤ → ℕ → Bool
lt_nat (pos n) b = ltb n b
lt_nat (negsuc n) b = true

-- The slice bound `index + 1` of an index that is -1 or more.
abbrev pub after : ℤ → ℕ
after (pos n) = suc n
after (negsuc n) = 0
