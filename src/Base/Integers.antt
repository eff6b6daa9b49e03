-- ===== src/Base/Integers.antt =====
-- Signed integers over the native numbers, under the library's names (its ℤ stands on another ℕ).
use async_tar_rs.Base.{ℕ, ◌-◌, ◌^◌, ◌<◌, ◌≡◌, ltb, arith, if◌then◌else◌}

-- `negsuc n` is -(n + 1).
pub data ℤ : Type 0 where
  pos : ℕ → ℤ
  negsuc : ℕ → ℤ

-- `as i64` of a number below `2 ^ 64`: the top bit is the sign.
unfoldable pub as_i64 : ℕ → ℤ
as_i64 n = if ltb n (2 ^ 63) then pos n else negsuc (2 ^ 64 - n - 1)

pub as_i64_small : (n : ℕ) → n < 2 ^ 63 → as_i64 n ≡ pos n
unfolding as_i64
as_i64_small n small = ground arith
