-- ===== src/Base/Int.antt =====
-- Python's unbounded integers.
use Prim.Native.Nat.{ℕ}
use mathlib.Core.Bool.{Bool, true, false}
use mq.Base.Tests.{◌==◌}

-- `negsuc n` is -(n + 1).
pub data ℤ : Type 0 where
  pos : ℕ → ℤ
  negsuc : ℕ → ℤ

-- `i == 0`
abbrev pub is_zero : ℤ → Bool
is_zero (pos n) = n == 0
is_zero (negsuc n) = false

-- `i > 0`
abbrev pub is_positive : ℤ → Bool
is_positive (pos n) = mathlib.Core.Bool.not (n == 0)
is_positive (negsuc n) = false
