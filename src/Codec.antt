-- ===== src/Codec.antt =====
-- src/header.rs, lines 1390 to 1488: the encodings of the fields of a header block.
-- A field `&mut [u8]` is a list, and a function that fills it returns the new field.
pub mod Octal
pub mod Numeric
pub mod Names
use async_tar_rs.Base.{
  ℕ, zero, suc, ◌+◌, ◌-◌, ◌*◌, ◌/◌, ◌%◌, ◌^◌, Bool, true, false, ◌&&◌, ◌||◌, Option, none, some,
  List, [], ◌∷◌, ◌++◌, reverse, Bytes, length, drop, get_or, any, replicate, ltb, leb, ◌==◌,
  if◌then◌else◌,
}
use async_tar_rs.Base.Slots.{overlay}
use async_tar_rs.Base.Result.{
  Result, ok, err, other, numeric_not_utf8, numeric_not_number, value_too_long, value_has_nul,
}
use async_tar_rs.Text.Utf8.{from_utf8, trim}
use async_tar_rs.Text.Numbers.{format_radix, from_str_radix}
use Prim.Native.Nat.{bit_and, bit_or, bit_xor}

-- The bytes before the first NUL.
unfoldable pub truncate : Bytes → Bytes
truncate [] = []
truncate (b ∷ slice) = if b == 0 then [] else b ∷ truncate slice

unfoldable pub octal_from : Bytes → Result ℕ
octal_from slice = elim (from_utf8 (truncate slice)) [
  | none ↦ err (other numeric_not_utf8)
  | some num ↦ elim (from_str_radix 8 (trim num)) [
    | some n ↦ ok n
    | none ↦ err (other numeric_not_number)
  ]
]

-- `repeat(b'0')` is cut at the length of the field, past which `zip` does not look.
unfoldable pub octal_into : Bytes → ℕ → Bytes
octal_into dst val =
    let o = format_radix 8 val in
    let value = 0 ∷ (reverse o ++ replicate (length dst) b'0') in
    reverse (overlay (reverse dst) value)

-- `(0..x).rev().map(|x| ((src >> (8 * x)) & 0xff) as u8)`
unfoldable pub be_bytes : ℕ → ℕ → Bytes
be_bytes zero src = []
be_bytes (suc x) src = (src / 2 ^ (8 * x) % 256) ∷ be_bytes x src

-- `dst[0] |= 0x80`
unfoldable pub set_extension_bit : Bytes → Bytes
set_extension_bit [] = []
set_extension_bit (b ∷ dst) = bit_or b 0x80 ∷ dst

unfoldable pub numeric_extended_into : Bytes → ℕ → Bytes
unfolding be_bytes set_extension_bit
numeric_extended_into dst src =
    set_extension_bit (overlay dst (replicate (length dst - 8) 0 ++ be_bytes 8 src))

-- `dst <<= 8; dst |= *byte as u64;` on each byte: the low eight bits are 0 after the shift.
unfoldable pub shift_in : ℕ → Bytes → ℕ
shift_in dst [] = dst
shift_in dst (byte ∷ bytes) = shift_in (dst * 2 ^ 8 % 2 ^ 64 + byte) bytes

unfoldable pub numeric_extended_from : Bytes → ℕ
unfolding shift_in
numeric_extended_from src =
    if length src == 8
    then shift_in (bit_xor (get_or src 0 0) 0x80) (drop 1 src)
    else shift_in 0 (drop (length src - 8) src)

unfoldable pub num_field_wrapper_into : Bytes → ℕ → Bytes
num_field_wrapper_into dst src =
    if leb 8589934592 src || (leb 2097152 src && length dst == 8)
    then numeric_extended_into dst src
    else octal_into dst src

unfoldable pub num_field_wrapper_from : Bytes → Result ℕ
num_field_wrapper_from src =
    if bit_and (get_or src 0 0) 0x80 == 0 then octal_from src else ok (numeric_extended_from src)

-- The value, with a NUL behind it where there is room. The rest of the slot keeps what it held.
unfoldable pub copy_into : Bytes → Bytes → Result Bytes
copy_into slot bytes =
    if ltb (length slot) (length bytes)
    then err (other value_too_long)
    else if any (λ b. b == 0) bytes
    then err (other value_has_nul)
    else ok (overlay slot (bytes ++ (0 ∷ [])))
