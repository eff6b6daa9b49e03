-- ===== src/Text/Numbers.antt =====
-- `format!("{:o}", n)`, `n.to_string()`, `u64::from_str_radix` and `str::parse::<u64>`.
use async_tar_rs.Base.{
  ℕ, zero, suc, ◌+◌, ◌-◌, ◌*◌, ◌/◌, ◌%◌, ◌^◌, ◌≤◌, ◌<◌, ◌≡◌, refl, sym, ap, ◌∙◌, true, false, ◌&&◌,
  Option, none, some, List, [], ◌∷◌, ◌++◌, reverse, arith, Bytes, All, length, ltb, leb, ◌==◌,
  if◌then◌else◌, Bool-cases, inl, inr, true, false,
}
use mathlib.Core.List.{append-nil, append_assoc, reverse-append, reverse-reverse}

-- The digits of `n` before `out`; a u64 has at most 22 octal digits and 20 decimal ones.
unfoldable pub digits : ℕ → ℕ → ℕ → Bytes → Bytes
digits radix zero n out = out
digits radix (suc fuel) n out =
    let rest = digits radix fuel (n / radix) ((b'0' + n % radix) ∷ out) in
    if n == 0 then out else rest

unfoldable pub format_radix : ℕ → ℕ → Bytes
format_radix radix n = if n == 0 then b'0' ∷ [] else digits radix 22 n []

digit_value : ℕ → ℕ → Option ℕ
digit_value radix c = if leb b'0' c && ltb c (b'0' + radix) then some (c - b'0') else none

-- The loop of `from_str_radix`, with its test for overflow of a u64.
unfoldable pub read_digits : ℕ → List ℕ → ℕ → Option ℕ
unfolding digit_value
read_digits radix [] acc = some acc
read_digits radix (c ∷ text) acc =
    let d = digit_value radix c in
    elim d [
      | none ↦ none
      | some k ↦
          let rest = read_digits radix text (acc * radix + k) in
          if ltb (acc * radix + k) (2 ^ 64) then rest else none
    ]

-- An empty text or a lone sign is refused, and a leading `+` is skipped. Only for radix 8 and 10.
unfoldable pub from_str_radix : ℕ → List ℕ → Option ℕ
unfolding read_digits
from_str_radix radix [] = none
from_str_radix radix (c ∷ []) = read_digits radix (c ∷ []) 0
from_str_radix radix (c ∷ d ∷ text) =
    read_digits radix (if c == b'+' then d ∷ text else c ∷ d ∷ text) 0

unfoldable pub parse_u64 : List ℕ → Option ℕ
unfolding from_str_radix
parse_u64 = from_str_radix 10

-- The digits of `n`, lowest first, up to the highest one that is not 0.
unfoldable pub some_digits : ℕ → ℕ → ℕ → Bytes
some_digits radix zero n = []
some_digits radix (suc fuel) n =
    let rest = some_digits radix fuel (n / radix) in
    if n == 0 then [] else (b'0' + n % radix) ∷ rest

digits-some_digits :
    (radix fuel n : ℕ) (out : Bytes)
    → digits radix fuel n out ≡ reverse (some_digits radix fuel n) ++ out
unfolding digits some_digits
digits-some_digits radix zero n out = refl
digits-some_digits radix (suc fuel) n out = elim (Bool-cases (n == 0)) [
  | inl z ↦ rw z refl
  | inr p ↦ rw p (
      digits-some_digits radix fuel (n / radix) ((b'0' + n % radix) ∷ out)
      ∙ rw (reverse-append ((b'0' + n % radix) ∷ []) (some_digits radix fuel (n / radix)))
          (sym (append_assoc (reverse (some_digits radix fuel (n / radix))) _ out)))
]

pub reverse-format_radix :
    (radix n : ℕ)
    → reverse (format_radix radix n) ≡ (if n == 0 then b'0' ∷ [] else some_digits radix 22 n)
unfolding format_radix
reverse-format_radix radix n = elim (Bool-cases (n == 0)) [
  | inl z ↦ rw z refl
  | inr p ↦
      rw p (ap reverse (digits-some_digits radix 22 n []) ∙ rw (append-nil, reverse-reverse) refl)
]

pub read_digits-append :
    (radix : ℕ) (xs ys : List ℕ) (acc n : ℕ)
    → read_digits radix xs acc ≡ some n
    → read_digits radix (xs ++ ys) acc ≡ read_digits radix ys n
unfolding read_digits
read_digits-append radix [] ys acc n e = ground arith
read_digits-append radix (c ∷ xs) ys acc n e =
    ground (arith, read_digits-append radix xs ys (acc * radix + (c - b'0')) n)

pub read_digit_octal :
    (d acc : ℕ)
    → d < 8
    → acc * 8 + d < 2 ^ 64
    → read_digits 8 ((b'0' + d) ∷ []) acc ≡ some (acc * 8 + d)
unfolding read_digits
read_digit_octal d acc h h' = ground arith

pub reverse-format_zero :
    (radix n : ℕ) → (n == 0) ≡ true → reverse (format_radix radix n) ≡ b'0' ∷ []
reverse-format_zero radix n z = reverse-format_radix radix n ∙ rw z refl

pub reverse-format_pos :
    (radix n : ℕ) → (n == 0) ≡ false → reverse (format_radix radix n) ≡ some_digits radix 22 n
reverse-format_pos radix n p = reverse-format_radix radix n ∙ rw p refl

-- Decimal digits.
abbrev pub IsDigit : ℕ → Type 0
IsDigit c = (b'0' ≤ c) × (c ≤ b'9')

-- A text of digits has no sign.
pub from_str_radix-digits :
    (radix : ℕ) (text : List ℕ)
    → All IsDigit text
    → 0 < length text
    → from_str_radix radix text ≡ read_digits radix text 0
unfolding from_str_radix
from_str_radix-digits radix [] h pos = absurd (omega arith)
from_str_radix-digits radix (c ∷ []) h pos = refl
from_str_radix-digits radix (c ∷ d ∷ text) (hc, h) pos =
    rw (let e : (c == b'+') ≡ false = ground arith in e) refl
