-- ===== src/Text/Utf8.antt =====
-- `str::from_utf8` and `str::trim`. A `str` is the list of its code points.
use async_tar_rs.Base.{
  zero, suc, take, length, ℕ, ◌+◌, ◌-◌, ◌*◌, ◌≤◌, ◌<◌, ◌≡◌, refl, Bool, not, ◌&&◌, ◌||◌, Option,
  none, some, List, [], ◌∷◌, ◌++◌, reverse, arith, Bytes, All, ltb, leb, ◌==◌, if◌then◌else◌,
}
use mathlib.Core.List.{reverse-reverse}

-- Between two bytes: how many continuation bytes are due, the range of the next one, and the
-- bits read so far.
record State : Type 0 where
  need : ℕ
  low : ℕ
  high : ℕ
  bits : ℕ

abbrev start : State
start = record { need = 0; low = 0; high = 0; bits = 0 }

abbrev within : ℕ → ℕ → ℕ → Bool
within lo hi b = leb lo b && leb b hi

abbrev lead : ℕ → ℕ → ℕ → ℕ → Option (State × List ℕ)
lead need low high bits = some (record { need = need; low = low; high = high; bits = bits }, [])

-- The first byte of a character. `0xc0`, `0xc1` and what follows `0xf4` start none; the range of
-- the second byte rules out overlong forms, surrogates and values above 0x10ffff.
first_byte : ℕ → Option (State × List ℕ)
first_byte b =
    if ltb b 0x80
    then some (start, b ∷ [])
    else if within 0xc2 0xdf b
    then lead 1 0x80 0xbf (b - 0xc0)
    else if b == 0xe0
    then lead 2 0xa0 0xbf 0
    else if b == 0xed
    then lead 2 0x80 0x9f 0xd
    else if within 0xe1 0xef b
    then lead 2 0x80 0xbf (b - 0xe0)
    else if b == 0xf0
    then lead 3 0x90 0xbf 0
    else if within 0xf1 0xf3 b
    then lead 3 0x80 0xbf (b - 0xf0)
    else if b == 0xf4
    then lead 3 0x80 0x8f 4
    else none

next_byte : State → ℕ → Option (State × List ℕ)
next_byte s b =
    let bits = s.bits * 64 + (b - 0x80) in
    if not (within s.low s.high b)
    then none
    else if s.need == 1
    then some (start, bits ∷ [])
    else lead (s.need - 1) 0x80 0xbf bits

step : State → ℕ → Option (State × List ℕ)
unfolding first_byte next_byte
step s b = if s.need == 0 then first_byte b else next_byte s b

decode : State → Bytes → Option (List ℕ)
decode s [] = if s.need == 0 then some [] else none
decode s (b ∷ bytes) = elim (step s b) [
  | none ↦ none
  | some (s', out) ↦ elim (decode s' bytes) [ none ↦ none | some text ↦ some (out ++ text) ]
]

unfoldable pub from_utf8 : Bytes → Option (List ℕ)
unfolding decode step
from_utf8 bytes = decode start bytes

-- `Utf8Error::valid_up_to`, or the length of a text without an error: the longest front that is
-- valid.
unfoldable pub valid_from : ℕ → Bytes → ℕ
valid_from zero bytes = 0
valid_from (suc n) bytes = elim (from_utf8 (take (suc n) bytes)) [
  | some text ↦ suc n
  | none ↦ valid_from n bytes
]

unfoldable pub valid_up_to : Bytes → ℕ
unfolding valid_from
valid_up_to bytes = valid_from (length bytes) bytes

-- `char::is_whitespace`
unfoldable pub is_whitespace : ℕ → Bool
is_whitespace c =
    within 9 13 c
    || c == 0x20
    || c == 0x85
    || c == 0xa0
    || c == 0x1680
    || within 0x2000 0x200a c
    || c == 0x2028
    || c == 0x2029
    || c == 0x202f
    || c == 0x205f
    || c == 0x3000

unfoldable pub trim_start : List ℕ → List ℕ
unfolding is_whitespace
trim_start [] = []
trim_start (c ∷ text) = let rest = trim_start text in if is_whitespace c then rest else c ∷ text

unfoldable pub trim : List ℕ → List ℕ
unfolding trim_start
trim text = reverse (trim_start (reverse (trim_start text)))

-- ASCII text decodes to itself.
pub from_utf8_ascii : (bytes : Bytes) → All (λ b. b < 128) bytes → from_utf8 bytes ≡ some bytes
unfolding from_utf8
from_utf8_ascii [] h = refl
from_utf8_ascii (b ∷ bytes) (hb, h) = ground (arith, from_utf8_ascii bytes h)

-- Visible ASCII characters.
abbrev pub IsGraphic : ℕ → Type 0
IsGraphic c = (33 ≤ c) × (c < 128)

trim_start_graphic : (text : List ℕ) → All IsGraphic text → trim_start text ≡ text
unfolding trim_start
trim_start_graphic [] h = refl
trim_start_graphic (c ∷ text) (hc, h) = ground arith

pub trim_graphic :
    (text : List ℕ) → All IsGraphic text → All IsGraphic (reverse text) → trim text ≡ text
unfolding trim
trim_graphic text h h' =
    rw (trim_start_graphic text h, trim_start_graphic (reverse text) h', reverse-reverse) refl

valid_from-le : (n : ℕ) (bytes : Bytes) → valid_from n bytes ≤ n
unfolding valid_from
valid_from-le zero bytes = omega arith
valid_from-le (suc n) bytes = ground (arith, valid_from-le n bytes)

pub valid_up_to-le : (bytes : Bytes) → valid_up_to bytes ≤ length bytes
unfolding valid_up_to
valid_up_to-le bytes = valid_from-le (length bytes) bytes
