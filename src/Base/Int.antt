-- ===== src/Base/Int.antt =====
-- Go's `int` where a value may be negative. `negsuc n` is -(n + 1).
use Prim.Native.Nat.{ℕ}
use mathlib.Core.Bool.{Bool, true, false}
use nomad_dev.Base.Tests.{◌==◌, leb}

pub data ℤ : Type 0 where
  pos : ℕ → ℤ
  negsuc : ℕ → ℤ

-- `max n 1` and `max n 0` over Go's ints.
abbrev pub at_least_one : ℤ → ℕ
at_least_one (pos n) = elim (leb 1 n) [ true ↦ n | false ↦ 1 ]
at_least_one (negsuc n) = 1

abbrev pub at_least_zero : ℤ → ℕ
at_least_zero (pos n) = n
at_least_zero (negsuc n) = 0

abbrev pub is_zero : ℤ → Bool
is_zero (pos n) = n == 0
is_zero (negsuc n) = false
