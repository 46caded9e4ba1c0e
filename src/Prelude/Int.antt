-- ===== src/Prelude/Int.antt =====
-- Signed numbers, for the int64 fields that the code tests for their sign.
use Prim.Native.Nat.{ℕ, ◌-◌, ◌%◌}
use mathlib.Core.Bool.{Bool, true, false}
use zagforge_mvp.Prelude.Tests.{leb, ltb, if◌then◌else◌}

-- `negsuc n` is -(n + 1).
pub data ℤ : Type 0 where
  pos : ℕ → ℤ
  negsuc : ℕ → ℤ

abbrev pub is_nonneg : ℤ → Bool
is_nonneg (pos n) = true
is_nonneg (negsuc n) = false

abbrev pub leℤ : ℤ → ℤ → Bool
leℤ (pos m) (pos n) = leb m n
leℤ (pos m) (negsuc n) = false
leℤ (negsuc m) (pos n) = true
leℤ (negsuc m) (negsuc n) = leb n m

-- the conversion `int32(n)` of a count, which wraps around
abbrev pub int32 : ℕ → ℤ
int32 n =
    let low = n % 4294967296 in if ltb low 2147483648 then pos low else negsuc (4294967295 - low)
