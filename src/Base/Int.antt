-- ===== src/Base/Int.antt =====
-- Signed integers over the native numbers, under the library's names, and the casts and the clamp
-- that the source applies to `i32`, `i64`, `u32` and `u64`.
use Prim.Native.Nat.{ℕ, ◌-◌, ◌^◌}
use mathlib.Core.Bool.{Bool, false}
use peat_sapient.Base.Tests.{ltb, ◌==◌, if◌then◌else◌}

-- `negsuc n` is -(n + 1).
pub data ℤ : Type 0 where
  pos : ℕ → ℤ
  negsuc : ℕ → ℤ

-- `n as i64` and `n as i32` of an unsigned number: the upper half of the range turns negative.
unfoldable pub as_i64 : ℕ → ℤ
as_i64 n = if ltb n (2 ^ 63) then pos n else negsuc (2 ^ 64 - 1 - n)

unfoldable pub as_i32 : ℕ → ℤ
as_i32 n = if ltb n (2 ^ 31) then pos n else negsuc (2 ^ 32 - 1 - n)

-- `v.clamp(0, hi) as u32`.
unfoldable pub clamp_from_zero : ℕ → ℤ → ℕ
clamp_from_zero hi (pos n) = if ltb hi n then hi else n
clamp_from_zero hi (negsuc n) = 0

-- `raw == n` for a literal `n`.
abbrev pub is_num : ℤ → ℕ → Bool
is_num (pos n) k = n == k
is_num (negsuc n) k = false
