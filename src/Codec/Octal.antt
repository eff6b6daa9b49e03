-- ===== src/Codec/Octal.antt =====
-- `octal_into` and `octal_from`: what is written, and what is read back.
use async_tar_rs.Base.{
  subst, get_or, ℕ, zero, suc, ◌+◌, ◌*◌, ◌/◌, ◌%◌, ◌^◌, ◌≤◌, ◌<◌, ◌≡◌, refl, sym, ap, ◌∙◌, some,
  List, [], ◌∷◌, ◌++◌, reverse, arith, Bytes, All, length, replicate, ◌==◌, length-reverse,
}
use async_tar_rs.Base.Slots.{overlay, length-overlay}
use async_tar_rs.Base.Result.{ok}
use async_tar_rs.Codec.Names.{truncate-nul}
use async_tar_rs.Text.Utf8.{IsGraphic, from_utf8_ascii, trim_graphic}
use async_tar_rs.Text.Numbers.{format_radix, read_digits}
use async_tar_rs.Codec.{octal_from, octal_into}
use async_tar_rs.Base.{All-append, All-mono, Bool-cases, inl, inr, true}
use async_tar_rs.Text.Numbers.{
  some_digits, reverse-format_zero, reverse-format_pos, read_digits-append, read_digit_octal,
  IsDigit, from_str_radix-digits,
}
use native.Mathlib.Nat.{
  pow-suc, mod-le, mod-lt, one-le-pow, div-add-mod', add-mul-mod_self_right, mod-eq_of_lt,
}
use mathlib.Core.List.{reverse-append, reverse-reverse}

-- `octal_from` on digits that end at a NUL.
pub octal_from-digits :
    (text rest : Bytes) (n : ℕ)
    → All IsDigit text
    → All IsDigit (reverse text)
    → 0 < length text
    → read_digits 8 text 0 ≡ some n
    → octal_from (text ++ 0 ∷ rest) ≡ ok n
unfolding octal_from
octal_from-digits text rest n d d' pos e =
    let cut = truncate-nul text rest (All-mono (λ c. 1 ≤ c) IsDigit text d (λ c h. omega arith)) in
    let utf = from_utf8_ascii text (All-mono (λ c. c < 128) IsDigit text d (λ c h. omega arith)) in
    let trimmed =
      trim_graphic text (All-mono IsGraphic IsDigit text d (λ c h. omega arith))
        (All-mono IsGraphic IsDigit (reverse text) d' (λ c h. omega arith)) in
    rw (octal_from, cut, utf, trimmed, from_str_radix-digits 8 text d pos, e) refl

first_of_digits :
    (text : Bytes)
    → All IsDigit text
    → 0 < length text
    → (b'0' ≤ get_or (text ++ 0 ∷ []) 0 0) × (get_or (text ++ 0 ∷ []) 0 0 ≤ b'9')
first_of_digits [] d h = absurd (omega arith)
first_of_digits (c ∷ text) (hc, d) h = hc

-- The last `k` octal digits of `n`, lowest first.
unfoldable pub low_digits : ℕ → ℕ → Bytes
low_digits zero n = []
low_digits (suc k) n = (b'0' + n % 8) ∷ low_digits k (n / 8)

pub length-low_digits : (k n : ℕ) → length (low_digits k n) ≡ k
unfolding low_digits
length-low_digits zero n = refl
length-low_digits (suc k) n = ap suc (length-low_digits k (n / 8))

zero_eq : (n : ℕ) → (n == 0) ≡ true → 0 ≡ n
zero_eq n z = ground arith

overlay-zeros :
    (slots : Bytes) (m : ℕ)
    → length slots ≤ m
    → overlay slots (replicate m b'0') ≡ low_digits (length slots) 0
unfolding overlay replicate low_digits
overlay-zeros [] m h = refl
overlay-zeros (x ∷ slots) zero h = absurd (omega arith)
overlay-zeros (x ∷ slots) (suc m) h = ap (◌∷◌ b'0') (overlay-zeros slots m (omega arith))

overlay-some_digits :
    (slots : Bytes) (fuel n m : ℕ)
    → length slots ≤ m
    → n < 8 ^ fuel
    → overlay slots (some_digits 8 fuel n ++ replicate m b'0') ≡ low_digits (length slots) n
unfolding some_digits overlay low_digits
overlay-some_digits slots zero n m h hn =
    overlay-zeros slots m h ∙ ap (low_digits (length slots)) (omega arith)
overlay-some_digits [] (suc fuel) n m h hn = refl
overlay-some_digits (x ∷ slots) (suc fuel) n m h hn = elim (Bool-cases (n == 0)) [
  | inl z ↦
      rw z (overlay-zeros (x ∷ slots) m h ∙ ap (low_digits (length (x ∷ slots))) (zero_eq n z))
  | inr p ↦ rw p (
      ap (◌∷◌ (b'0' + n % 8))
        (overlay-some_digits slots fuel (n / 8) m (omega arith) (omega (arith, pow-suc 8 fuel))))
]

overlay-zero_text :
    (slots : Bytes) (m : ℕ)
    → length slots ≤ m
    → overlay slots (b'0' ∷ replicate m b'0') ≡ low_digits (length slots) 0
unfolding replicate
overlay-zero_text slots m h = overlay-zeros slots (suc m) (omega arith)

-- The text of `n`, from its last digit on, with zeros behind it.
overlay-format :
    (slots : Bytes) (n m : ℕ)
    → length slots ≤ m
    → n < 2 ^ 64
    → overlay slots (reverse (format_radix 8 n) ++ replicate m b'0') ≡ low_digits (length slots) n
overlay-format slots n m hm h = elim (Bool-cases (n == 0)) [
  | inl z ↦
      ap (λ (t : Bytes). overlay slots (t ++ replicate m b'0')) (reverse-format_zero 8 n z)
      ∙ overlay-zero_text slots m hm
      ∙ ap (low_digits (length slots)) (zero_eq n z)
  | inr p ↦
      ap (λ (t : Bytes). overlay slots (t ++ replicate m b'0')) (reverse-format_pos 8 n p)
      ∙ overlay-some_digits slots 22 n m hm (omega arith)
]

overlay-octal :
    (slots : Bytes) (k n m : ℕ)
    → length slots ≡ suc k
    → k ≤ m
    → n < 2 ^ 64
    → overlay slots (0 ∷ (reverse (format_radix 8 n) ++ replicate m b'0')) ≡ 0 ∷ low_digits k n
overlay-octal [] k n m e hm h = absurd (omega arith)
overlay-octal (x ∷ slots) k n m e hm h =
    unfold overlay in
    ap (◌∷◌ 0)
      (overlay-format slots n m (omega arith) h ∙ ap (λ (j : ℕ). low_digits j n) (omega arith))

-- The last `k` octal digits of `n`, highest first.
unfoldable pub octal_text : ℕ → ℕ → Bytes
octal_text k n = reverse (low_digits k n)

-- A field of `k + 1` bytes gets the last `k` octal digits of the value, and a NUL at its end.
pub octal_into_text :
    (dst : Bytes) (k n : ℕ)
    → length dst ≡ suc k
    → n < 2 ^ 64
    → octal_into dst n ≡ octal_text k n ++ 0 ∷ []
unfolding octal_into octal_text
octal_into_text dst k n e h =
    ap reverse (
      overlay-octal (reverse dst) k n (length dst) (omega (arith, length-reverse dst)) (omega arith)
        h)
    ∙ reverse-append (0 ∷ []) (low_digits k n)

pub length-octal_into : (dst : Bytes) (n : ℕ) → length (octal_into dst n) ≡ length dst
unfolding octal_into
length-octal_into dst n =
    length-reverse (overlay (reverse dst) _) ∙ length-overlay (reverse dst) _ ∙ length-reverse dst

octal_text-suc : (k n : ℕ) → octal_text (suc k) n ≡ octal_text k (n / 8) ++ (b'0' + n % 8) ∷ []
unfolding octal_text low_digits
octal_text-suc k n = reverse-append ((b'0' + n % 8) ∷ []) (low_digits k (n / 8))

mod_step : (n k : ℕ) → n / 8 % 8 ^ k * 8 + n % 8 ≡ n % 8 ^ suc k
mod_step n k =
    let m = 8 ^ k in
    let r = n / 8 % m * 8 + n % 8 in
    let pow : 8 ^ suc k ≡ m * 8 = pow-suc 8 k in
    let pos : 1 ≤ m = one-le-pow k 8 (omega arith) in
    let low : n / 8 % m < m = mod-lt (n / 8) (omega (arith, pos)) in
    let split : n ≡ r + n / 8 / m * (8 ^ suc k) =
      omega (arith, div-add-mod' (n / 8) m, ap (λ (t : ℕ). n / 8 / m * t) pow) in
    sym (
      ap (λ (t : ℕ). t % 8 ^ suc k) split
      ∙ add-mul-mod_self_right r (n / 8 / m) (8 ^ suc k)
      ∙ mod-eq_of_lt (omega (arith, pow, low)))

-- Reading the digits back gives the value up to the digits that did not fit.
read-octal_text : (k n : ℕ) → n < 2 ^ 64 → read_digits 8 (octal_text k n) 0 ≡ some (n % 8 ^ k)
read-octal_text zero n h = unfold octal_text low_digits read_digits in ap some (omega arith)
read-octal_text (suc k) n h =
    ap (λ (t : List ℕ). read_digits 8 t 0) (octal_text-suc k n)
    ∙ read_digits-append 8 (octal_text k (n / 8)) _ 0 (n / 8 % 8 ^ k)
        (read-octal_text k (n / 8) (omega arith))
    ∙ read_digit_octal (n % 8) (n / 8 % 8 ^ k) (omega arith) (omega (arith, mod-le (n / 8) (8 ^ k)))
    ∙ ap some (mod_step n k)

pub octal_text-IsDigit : (k n : ℕ) → All IsDigit (octal_text k n)
octal_text-IsDigit zero n = unfold octal_text low_digits in tt
octal_text-IsDigit (suc k) n =
    rw (octal_text-suc k n)
      (All-append IsDigit (octal_text k (n / 8)) _ (octal_text-IsDigit k (n / 8)) (omega arith))

low_digits-IsDigit : (k n : ℕ) → All IsDigit (low_digits k n)
unfolding low_digits
low_digits-IsDigit zero n = tt
low_digits-IsDigit (suc k) n = (omega arith, low_digits-IsDigit k (n / 8))

reverse-octal_text-IsDigit : (k n : ℕ) → All IsDigit (reverse (octal_text k n))
unfolding octal_text
reverse-octal_text-IsDigit k n =
    subst (All IsDigit) (sym (reverse-reverse (low_digits k n))) (low_digits-IsDigit k n)

length-octal_text : (k n : ℕ) → length (octal_text k n) ≡ k
unfolding octal_text
length-octal_text k n = length-reverse (low_digits k n) ∙ length-low_digits k n

-- A field of `k + 2` bytes that holds a number below `2 ^ 64` as octal text is read back as the
-- number modulo `8 ^ (k + 1)`: text that is too long for the field loses its leading digits
-- without an error.
pub octal_from-octal_into :
    (dst : Bytes) (k n : ℕ)
    → length dst ≡ suc (suc k)
    → n < 2 ^ 64
    → octal_from (octal_into dst n) ≡ ok (n % 8 ^ suc k)
octal_from-octal_into dst k n e h =
    ap octal_from (octal_into_text dst (suc k) n e h)
    ∙ octal_from-digits (octal_text (suc k) n) [] (n % 8 ^ suc k) (octal_text-IsDigit (suc k) n)
        (reverse-octal_text-IsDigit (suc k) n) (omega (arith, length-octal_text (suc k) n))
        (read-octal_text (suc k) n h)

-- The first byte of the field is a digit.
pub first_octal_digit :
    (k n : ℕ)
    → (b'0' ≤ get_or (octal_text (suc k) n ++ 0 ∷ []) 0 0)
      × (get_or (octal_text (suc k) n ++ 0 ∷ []) 0 0 ≤ b'9')
first_octal_digit k n =
    first_of_digits (octal_text (suc k) n) (octal_text-IsDigit (suc k) n)
      (omega (arith, length-octal_text (suc k) n))
