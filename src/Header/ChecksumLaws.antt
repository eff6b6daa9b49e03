-- ===== src/Header/ChecksumLaws.antt =====
-- src/header.rs: the checksum field.
use async_tar_rs.Base.{
  Bool, true, ◌&&◌, ltb, ℕ, zero, suc, ◌+◌, ◌*◌, ◌%◌, ◌^◌, ◌≤◌, ◌<◌, ◌≡◌, refl, sym, ap, ◌∙◌, [],
  ◌∷◌, ◌++◌, Bytes, length, take, drop, replicate, arith, All, All-append, length-append,
  length-take, length-drop, length-replicate,
}
use async_tar_rs.Base.Slots.{take-splice, drop-splice}
use async_tar_rs.Base.Result.{Result, ok, map_ok, map_err, when, getting_cksum}
use async_tar_rs.Codec.{octal_into}
use async_tar_rs.Codec.Octal.{length-octal_into}
use async_tar_rs.Header.Layout.{Header, get, put, update, cksum_field}
use async_tar_rs.Header.Checksum.{sum_from, calculate_cksum, cksum, set_cksum}
use async_tar_rs.Header.Laws.{IsBlock, length-get, get_octal}

abbrev pub IsByte : ℕ → Type 0
IsByte b = b < 256

-- A list of bytes is checked by evaluation.
abbrev pub bytes_below : Bytes → Bool
bytes_below [] = true
bytes_below (b ∷ bytes) = ltb b 256 && bytes_below bytes

pub bytes_below-IsByte : (bytes : Bytes) → bytes_below bytes ≡ true → All IsByte bytes
bytes_below-IsByte [] h = tt
bytes_below-IsByte (b ∷ bytes) h = ground (arith, bytes_below-IsByte bytes)

sum_from-le : (a : ℕ) (bytes : Bytes) → All IsByte bytes → sum_from a bytes ≤ a + 255 * length bytes
unfolding sum_from
sum_from-le a [] h = omega arith
sum_from-le a (b ∷ bytes) (hb, h) = omega (arith, sum_from-le (a + b) bytes h)

pub take-All : (P : ℕ → Type 0) (n : ℕ) (xs : Bytes) → All P xs → All P (take n xs)
unfolding take
take-All P zero xs h = tt
take-All P (suc n) [] h = tt
take-All P (suc n) (x ∷ xs) (hx, h) = (hx, take-All P n xs h)

pub drop-All : (P : ℕ → Type 0) (n : ℕ) (xs : Bytes) → All P xs → All P (drop n xs)
unfolding drop
drop-All P zero xs h = h
drop-All P (suc n) [] h = tt
drop-All P (suc n) (x ∷ xs) (hx, h) = drop-All P n xs h

-- The sum fits the seven digits of the field.
pub calculate_cksum-lt : (h : Header) → IsBlock h → All IsByte h.bytes → calculate_cksum h < 2 ^ 18
unfolding calculate_cksum
calculate_cksum-lt h b bytes =
    let front = take 148 h.bytes in
    let space : ℕ = b' ' in
    let spaces = replicate 8 space in
    let back = drop 156 h.bytes in
    omega (
      arith,
      sum_from-le 0 (front ++ (spaces ++ back)) (
          All-append IsByte front (spaces ++ back) (take-All IsByte 148 h.bytes bytes) (
            All-append IsByte spaces back (unfold replicate in omega arith)
              (drop-All IsByte 156 h.bytes bytes))),
      length-append front (spaces ++ back),
      length-append spaces back,
      length-take 148 h.bytes,
      length-replicate 8 space,
      length-drop 156 h.bytes,
      b,
    )

-- The checksum does not depend on the field that stores it.
pub calculate_cksum-set_cksum :
    (h : Header) → IsBlock h → calculate_cksum (set_cksum h) ≡ calculate_cksum h
unfolding calculate_cksum set_cksum update put
calculate_cksum-set_cksum h b =
    let vals = octal_into (get cksum_field h) (calculate_cksum h) in
    let n : length vals ≡ 8 =
      length-octal_into (get cksum_field h) (calculate_cksum h)
      ∙ length-get cksum_field h b (omega arith) in
    rw
      (
        take-splice 148 148 vals h.bytes (omega arith),
        drop-splice 156 148 vals h.bytes (omega arith),
      )
      refl

cksum_read :
    (h : Header)
    → IsBlock h
    → calculate_cksum h < 2 ^ 18
    → cksum (set_cksum h) ≡ ok (calculate_cksum h)
unfolding cksum set_cksum
cksum_read h b small =
    ap (λ (r : Result ℕ). map_err (when getting_cksum) (map_ok (λ u. u % 2 ^ 32) r))
      (get_octal cksum_field h (calculate_cksum h) b (omega arith) (omega (arith, small)) refl)
    ∙ ap ok by_size
  where
    by_size : calculate_cksum h % 8 ^ 7 % 2 ^ 32 ≡ calculate_cksum h
    by_size = omega (arith, small)

-- On a header of 512 bytes, each below 256, the checksum that `set_cksum` stores is read back by
-- `cksum` as the sum that `calculate_cksum` computes of the header that holds it.
pub cksum-set_cksum :
    (h : Header)
    → IsBlock h
    → All IsByte h.bytes
    → cksum (set_cksum h) ≡ ok (calculate_cksum (set_cksum h))
cksum-set_cksum h b bytes =
    cksum_read h b (calculate_cksum-lt h b bytes) ∙ ap ok (sym (calculate_cksum-set_cksum h b))
