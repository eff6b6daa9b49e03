-- ===== src/Header/Checksum.antt =====
-- `calculate_cksum`, `cksum` and `set_cksum`.
use async_tar_rs.Base.{ℕ, ◌+◌, ◌%◌, ◌^◌, [], ◌∷◌, ◌++◌, Bytes, take, drop, replicate}
use async_tar_rs.Base.Result.{Result, map_ok, map_err, when, getting_cksum}
use async_tar_rs.Codec.{octal_from, octal_into}
use async_tar_rs.Header.Layout.{Header, get, update, cksum_field}

-- `.fold(a, |a, b| a + (*b as u32))`: at most 512 * 255, so the u32 does not overflow.
unfoldable pub sum_from : ℕ → Bytes → ℕ
sum_from a [] = a
sum_from a (b ∷ bytes) = sum_from (a + b) bytes

-- The sum of all bytes, with spaces in the place of the checksum.
unfoldable pub calculate_cksum : Header → ℕ
calculate_cksum h = sum_from 0 (
    take cksum_field.off h.bytes
    ++ (replicate cksum_field.len b' ' ++ drop (cksum_field.off + cksum_field.len) h.bytes))

unfoldable pub cksum : Header → Result ℕ
cksum h = map_err (when getting_cksum) (map_ok (λ u. u % 2 ^ 32) (octal_from (get cksum_field h)))

unfoldable pub set_cksum : Header → Header
set_cksum h = update cksum_field (λ dst. octal_into dst (calculate_cksum h)) h
