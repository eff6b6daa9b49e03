-- ===== src/Codec/Numeric.antt =====
-- The numeric extension, and the wrappers that choose between it and octal text.
use async_tar_rs.Base.{
  ℕ, zero, suc, ◌+◌, ◌/◌, ◌%◌, ◌^◌, ◌<◌, ◌≡◌, refl, sym, ap, ◌∙◌, true, false, [], ◌∷◌, ◌++◌, arith,
  Bytes, length, drop, get_or, replicate, leb, ◌==◌, Bool-cases, inl, inr, length-append,
  length-replicate,
}
use async_tar_rs.Base.Bits.{top_bit, set_top_bit, flip_top_bit}
use async_tar_rs.Base.Slots.{overlay, length-overlay}
use async_tar_rs.Base.Result.{ok}
use async_tar_rs.Codec.{
  octal_into, be_bytes, set_extension_bit, numeric_extended_into, shift_in, numeric_extended_from,
  num_field_wrapper_into, num_field_wrapper_from,
}
use async_tar_rs.Codec.Octal.{
  octal_from-octal_into, octal_into_text, length-octal_into, octal_text, first_octal_digit,
}
use native.Mathlib.Nat.{mod-eq_of_lt}
use Prim.Native.Nat.{bit_and, bit_or, bit_xor}

-- The eight bytes of a u64, shifted in one after the other, give the u64.
shift_in-be_bytes : (src : ℕ) → src < 2 ^ 64 → shift_in 0 (be_bytes 8 src) ≡ src
unfolding shift_in be_bytes
shift_in-be_bytes src h = omega arith

flipped :
    (src : ℕ) → src < 2 ^ 64 → bit_xor (bit_or (src / 2 ^ 56 % 256) 0x80) 0x80 ≡ src / 2 ^ 56 % 128
flipped src h = omega (
  arith,
  set_top_bit (src / 2 ^ 56 % 256) (omega arith),
  flip_top_bit (bit_or (src / 2 ^ 56 % 256) 0x80)
      (omega (arith, set_top_bit (src / 2 ^ 56 % 256) (omega arith))),
)

shift_in-be_bytes_seven :
    (src : ℕ) → src < 2 ^ 64 → shift_in (src / 2 ^ 56 % 128) (be_bytes 7 src) ≡ src % 2 ^ 63
unfolding shift_in be_bytes
shift_in-be_bytes_seven src h = omega arith

overlay_whole : (dst vals : Bytes) → length dst ≡ length vals → overlay dst vals ≡ vals
unfolding overlay
overlay_whole [] [] e = refl
overlay_whole [] (v ∷ vals) e = absurd (omega arith)
overlay_whole (d ∷ dst) [] e = absurd (omega arith)
overlay_whole (d ∷ dst) (v ∷ vals) e = ap (◌∷◌ v) (overlay_whole dst vals (omega arith))

length-be_bytes : (x src : ℕ) → length (be_bytes x src) ≡ x
unfolding be_bytes
length-be_bytes zero src = refl
length-be_bytes (suc x) src = ap suc (length-be_bytes x src)

length-padded : (n src : ℕ) → length (replicate n 0 ++ be_bytes 8 src) ≡ n + 8
length-padded n src = omega (
  arith,
  length-append {0} (replicate n 0) (be_bytes 8 src),
  length-replicate {0} {A = ℕ} n 0,
  length-be_bytes 8 src,
)

length-set_extension_bit : (dst : Bytes) → length (set_extension_bit dst) ≡ length dst
unfolding set_extension_bit
length-set_extension_bit [] = refl
length-set_extension_bit (b ∷ dst) = refl

length-numeric_extended_into :
    (dst : Bytes) (src : ℕ) → length (numeric_extended_into dst src) ≡ length dst
unfolding numeric_extended_into
length-numeric_extended_into dst src =
    length-set_extension_bit (overlay dst _) ∙ length-overlay dst _

-- The field holds the eight bytes of the value behind zeros, with the top bit of the field set.
extended_field :
    (n : ℕ) (dst : Bytes) (src : ℕ)
    → length dst ≡ n + 8
    → numeric_extended_into dst src ≡ set_extension_bit (replicate n 0 ++ be_bytes 8 src)
unfolding numeric_extended_into
extended_field n dst src e =
    ap (λ (j : ℕ). set_extension_bit (overlay dst (replicate j 0 ++ be_bytes 8 src))) (omega arith)
    ∙ ap set_extension_bit (overlay_whole dst _ (omega (arith, length-padded n src)))

extended_from_twelve :
    (src : ℕ)
    → src < 2 ^ 64
    → numeric_extended_from (set_extension_bit (replicate 4 0 ++ be_bytes 8 src)) ≡ src
unfolding numeric_extended_from set_extension_bit replicate drop be_bytes
extended_from_twelve src h = shift_in-be_bytes src h

extended_from_eight :
    (src : ℕ)
    → src < 2 ^ 64
    → numeric_extended_from (set_extension_bit (replicate 0 0 ++ be_bytes 8 src)) ≡ src % 2 ^ 63
unfolding numeric_extended_from set_extension_bit replicate drop be_bytes
extended_from_eight src h =
    ap (λ (b : ℕ). shift_in b (be_bytes 7 src)) (flipped src h) ∙ shift_in-be_bytes_seven src h

-- The top bit of the first byte tells the two forms apart.
extended_marked :
    (n src : ℕ)
    → bit_and (get_or (set_extension_bit (replicate n 0 ++ be_bytes 8 src)) 0 0) 0x80 ≡ 128
unfolding set_extension_bit replicate be_bytes
extended_marked zero src = omega (
  arith,
  set_top_bit (src / 2 ^ 56 % 256) (omega arith),
  top_bit (bit_or (src / 2 ^ 56 % 256) 0x80)
      (omega (arith, set_top_bit (src / 2 ^ 56 % 256) (omega arith))),
)
extended_marked (suc n) src = refl

octal_unmarked :
    (dst : Bytes) (k src : ℕ)
    → length dst ≡ suc (suc k)
    → src < 2 ^ 64
    → bit_and (get_or (octal_into dst src) 0 0) 0x80 ≡ 0
octal_unmarked dst k src e h =
    let (low, high) = first_octal_digit k src in
    ap (λ (t : Bytes). bit_and (get_or t 0 0) 0x80) (octal_into_text dst (suc k) src e h)
    ∙ omega (arith, top_bit (get_or (octal_text (suc k) src ++ 0 ∷ []) 0 0) (omega arith))

-- What `num_field_wrapper_from` reads, by the form of the field.
from_octal :
    (dst : Bytes) (k src : ℕ)
    → length dst ≡ suc (suc k)
    → src < 2 ^ 64
    → src < 8 ^ suc k
    → num_field_wrapper_from (octal_into dst src) ≡ ok src
unfolding num_field_wrapper_from
from_octal dst k src e h fits =
    rw (octal_unmarked dst k src e h)
      (octal_from-octal_into dst k src e h ∙ ap ok (mod-eq_of_lt fits))

from_extended :
    (n : ℕ) (dst : Bytes) (src : ℕ)
    → length dst ≡ n + 8
    → num_field_wrapper_from (numeric_extended_into dst src)
      ≡ ok (numeric_extended_from (set_extension_bit (replicate n 0 ++ be_bytes 8 src)))
unfolding num_field_wrapper_from
from_extended n dst src e =
    ap num_field_wrapper_from (extended_field n dst src e) ∙ rw (extended_marked n src) refl

-- A field of 12 bytes gives back every number below `2 ^ 64` that was written to it, as octal
-- text or in the numeric extension.
pub num_field_twelve :
    (dst : Bytes) (src : ℕ)
    → length dst ≡ 12
    → src < 2 ^ 64
    → num_field_wrapper_from (num_field_wrapper_into dst src) ≡ ok src
unfolding num_field_wrapper_into
num_field_twelve dst src e h = elim (Bool-cases (leb 8589934592 src)) [
  | inl big ↦ rw big (from_extended 4 dst src e ∙ ap ok (extended_from_twelve src h))
  | inr small ↦
      rw (small, let t : (length dst == 8) ≡ false = ground arith in t)
        (elim (Bool-cases (leb 2097152 src)) [
          | inl m ↦ rw m (from_octal dst 10 src e h (ground arith))
          | inr m ↦ rw m (from_octal dst 10 src e h (ground arith))
        ])
]

-- A field of 8 bytes gives back a number below `2 ^ 64` modulo `2 ^ 63`: the top bit of a larger
-- one is lost to the flag of the extension.
pub num_field_eight :
    (dst : Bytes) (src : ℕ)
    → length dst ≡ 8
    → src < 2 ^ 64
    → num_field_wrapper_from (num_field_wrapper_into dst src) ≡ ok (src % 2 ^ 63)
unfolding num_field_wrapper_into
num_field_eight dst src e h = elim (Bool-cases (leb 2097152 src)) [
  | inl big ↦
      rw (big, let t : (length dst == 8) ≡ true = ground arith in t)
        (elim (Bool-cases (leb 8589934592 src)) [
          | inl m ↦ rw m (from_extended 0 dst src e ∙ ap ok (extended_from_eight src h))
          | inr m ↦ rw m (from_extended 0 dst src e ∙ ap ok (extended_from_eight src h))
        ])
  | inr small ↦
      rw (small, let t : leb 8589934592 src ≡ false = ground arith in t)
        (from_octal dst 6 src e h (ground arith) ∙ ap ok (sym (mod-eq_of_lt (ground arith))))
]

pub length-num_field_wrapper_into :
    (dst : Bytes) (src : ℕ) → 0 < length dst → length (num_field_wrapper_into dst src) ≡ length dst
unfolding num_field_wrapper_into
length-num_field_wrapper_into dst src pos =
    ground (arith, length-octal_into dst src, length-numeric_extended_into dst src)
