-- ===== src/Archive/Sealed.antt =====
-- src/archive.rs, the tests of a header, on headers that a client of the builder completed.
use async_tar_rs.Base.{
  ℕ, zero, suc, ◌+◌, ◌^◌, ◌≤◌, ◌<◌, ◌≡◌, refl, sym, ap, ◌∙◌, true, false, [], ◌∷◌, ◌++◌, Bytes,
  take, drop, replicate, arith, All, get_or, Bool-cases, inl, inr,
}
use async_tar_rs.Base.Slots.{slice}
use async_tar_rs.Base.Result.{ok, map_err, when, getting_size}
use async_tar_rs.Codec.{num_field_wrapper_from}
use async_tar_rs.Codec.Octal.{octal_into_text, first_octal_digit}
use async_tar_rs.EntryType
use async_tar_rs.EntryType.{EntryType}
use async_tar_rs.Header.{
  Header, get, cksum_field, size_field, linkflag, entry_size, sum_from, calculate_cksum, set_cksum,
  set_size, entry_type,
}
use async_tar_rs.Header.Laws.{
  IsBlock, update-IsBlock, length-get, get-update, get-update-Apart, octal_into-KeepsLength,
}
use async_tar_rs.Header.ChecksumLaws.{IsByte, calculate_cksum-lt, cksum-set_cksum}
use async_tar_rs.Header.Sealed.{
  sealed, set_size-IsBlock, set_size-IsByte, sealed-IsBlock, entry_size-sealed, entry_type-sealed,
}
use async_tar_rs.Archive.Entries.{all_zero, block_sum}
use async_tar_rs.Archive.Member.{IsReadable}
use async_tar_rs.Archive.Next.{kind}
use async_tar_rs.Archive.Plain.{IsPlain}

sum_from-append : (a : ℕ) (xs ys : Bytes) → sum_from a (xs ++ ys) ≡ sum_from (sum_from a xs) ys
unfolding sum_from
sum_from-append a [] ys = refl
sum_from-append a (x ∷ xs) ys = sum_from-append (a + x) xs ys

sum_from-add : (a k : ℕ) (ys : Bytes) → sum_from (a + k) ys ≡ sum_from a ys + k
unfolding sum_from
sum_from-add a k [] = refl
sum_from-add a k (y ∷ ys) = ap (λ (t : ℕ). sum_from t ys) (omega arith) ∙ sum_from-add (a + y) k ys

sum_from-spaces : (a : ℕ) → sum_from a (replicate 8 b' ') ≡ a + 256
unfolding sum_from replicate
sum_from-spaces a = omega arith

-- The sum that the reader computes over a block, with 256 in place of the bytes of the checksum
-- field, is the one that `calculate_cksum` computes for the writer.
pub block_sum-calculate_cksum : (h : Header) → block_sum h ≡ calculate_cksum h
unfolding block_sum calculate_cksum
block_sum-calculate_cksum h =
    let front = take 148 h.bytes in
    let back = drop 156 h.bytes in
    ap (λ (t : ℕ). t + 256) (sum_from-append 0 front back)
    ∙ sym (
        sum_from-append 0 front (replicate 8 b' ' ++ back)
        ∙ sum_from-append (sum_from 0 front) (replicate 8 b' ') back
        ∙ ap (λ (t : ℕ). sum_from t back) (sum_from-spaces (sum_from 0 front))
        ∙ sum_from-add (sum_from 0 front) 256 back)

all_zero-slice :
    (off n : ℕ) (bytes : Bytes) → all_zero bytes ≡ true → get_or (slice off n bytes) 0 0 ≡ 0
unfolding slice take drop
all_zero-slice zero zero bytes z = refl
all_zero-slice zero (suc n) [] z = refl
all_zero-slice zero (suc n) (b ∷ bytes) z = ground arith
all_zero-slice (suc off) zero [] z = refl
all_zero-slice (suc off) (suc n) [] z = refl
all_zero-slice (suc off) n (b ∷ bytes) z = all_zero-slice off n bytes (ground arith)

set_cksum-digit :
    (h : Header) → IsBlock h → All IsByte h.bytes → 48 ≤ get_or (get cksum_field (set_cksum h)) 0 0
unfolding set_cksum
set_cksum-digit h b bytes =
    let s = calculate_cksum h in
    let small = calculate_cksum-lt h b bytes in
    let (low, high) = first_octal_digit 6 s in
    omega (
      arith,
      ap (λ (t : Bytes). get_or t 0 0)
          (get-update cksum_field _ h b (omega arith) (omega arith) (octal_into-KeepsLength s)
            ∙ octal_into_text (get cksum_field h) 7 s (length-get cksum_field h b (omega arith))
                (omega (arith, small))),
      low,
    )

pub set_cksum-some_byte :
    (h : Header) → IsBlock h → All IsByte h.bytes → all_zero (set_cksum h).bytes ≡ false
set_cksum-some_byte h b bytes = elim (Bool-cases (all_zero (set_cksum h).bytes)) [
  | inl z ↦ absurd (omega (arith, set_cksum-digit h b bytes, zero_digit z))
  | inr some_ ↦ some_
]
  where
    zero_digit :
        all_zero (set_cksum h).bytes ≡ true → get_or (get cksum_field (set_cksum h)) 0 0 ≡ 0
    zero_digit z = unfold get in all_zero-slice 148 8 (set_cksum h).bytes z

-- A header of 512 bytes, each below 256, that `set_size` and `set_cksum` have completed for data
-- of `n` bytes, `n` below `2 ^ 64`, is one that the reader accepts: it is not all zeros, its
-- checksum is the one that the reader computes, and its size is `n`.
pub sealed-IsReadable :
    (h : Header) (n : ℕ) → IsBlock h → All IsByte h.bytes → n < 2 ^ 64 → IsReadable (sealed n h) n
sealed-IsReadable h n b bytes u =
    let b' = set_size-IsBlock h n b u in
    let bytes' = set_size-IsByte h n b u bytes in
    record {
      block = sealed-IsBlock h n b u;
      some_byte = set_cksum-some_byte (set_size n h) b' bytes';
      checksum =
          cksum-set_cksum (set_size n h) b' bytes'
          ∙ ap ok (sym (block_sum-calculate_cksum (sealed n h)));
      listed = entry_size-sealed h n b u;
    }

-- The types of members that stand for themselves.
pub record IsOrdinary (t : EntryType) : Type 0 where
  pub not_longname : EntryType.is_gnu_longname t ≡ false
  pub not_longlink : EntryType.is_gnu_longlink t ≡ false
  pub not_pax : EntryType.is_pax_local_extensions t ≡ false
  pub not_sparse : EntryType.is_gnu_sparse t ≡ false

pub ordinary-IsPlain : (h : Header) (t : EntryType) → entry_type h ≡ t → IsOrdinary t → IsPlain h
ordinary-IsPlain h t same o = record {
  is_plain = (unfold kind in rw same (ground arith));
  not_sparse = ap EntryType.is_gnu_sparse same ∙ o.not_sparse;
}

pub sealed-IsPlain :
    (h : Header) (n : ℕ) → IsBlock h → n < 2 ^ 64 → IsOrdinary (entry_type h) → IsPlain (sealed n h)
sealed-IsPlain h n b u o =
    ordinary-IsPlain (sealed n h) (entry_type h) (entry_type-sealed h n b u) o

entry_size-set_cksum : (h : Header) → IsBlock h → entry_size (set_cksum h) ≡ entry_size h
unfolding entry_size set_cksum
entry_size-set_cksum h b =
    ap (λ (t : Bytes). map_err (when getting_size) (num_field_wrapper_from t))
      (get-update-Apart cksum_field _ h size_field b (omega arith) (omega arith)
        (octal_into-KeepsLength (calculate_cksum h)) (inl (omega arith)))

pub entry_type-set_cksum : (h : Header) → IsBlock h → entry_type (set_cksum h) ≡ entry_type h
unfolding entry_type set_cksum
entry_type-set_cksum h b =
    ap (λ (t : Bytes). EntryType.new (get_or t 0 0))
      (get-update-Apart cksum_field _ h linkflag b (omega arith) (omega arith)
        (octal_into-KeepsLength (calculate_cksum h)) (inr (omega arith)))

-- A header that `set_cksum` completes is readable where its size field is.
pub set_cksum-IsReadable :
    (h : Header) (n : ℕ)
    → IsBlock h
    → All IsByte h.bytes
    → entry_size h ≡ ok n
    → IsReadable (set_cksum h) n
set_cksum-IsReadable h n b bytes listed = record {
  block = (unfold set_cksum in update-IsBlock cksum_field _ h b);
  some_byte = set_cksum-some_byte h b bytes;
  checksum = cksum-set_cksum h b bytes ∙ ap ok (sym (block_sum-calculate_cksum (set_cksum h)));
  listed = entry_size-set_cksum h b ∙ listed;
}
