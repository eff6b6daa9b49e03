-- ===== src/Pax/Records.antt =====
-- What the iterator makes of well-formed records.
use async_tar_rs.Base.{
  map, ℕ, ◌+◌, ◌<◌, ◌≡◌, ◌≢◌, refl, sym, ap, ◌∙◌, some, List, [], ◌∷◌, ◌++◌, arith, Bytes, All,
  All-mono, All-append, length, length-append, drop, take-append, drop-append, drop-drop,
}
use async_tar_rs.Base.Result.{Result, ok}
use async_tar_rs.Text.Utf8.{from_utf8_ascii}
use async_tar_rs.Text.Numbers.{parse_u64, IsDigit}
use async_tar_rs.Pax.{
  PaxExtension, position, split_lines, reported, key_value, parse_line, from_lines, extensions,
}

position-append :
    (x : ℕ) (front back : Bytes)
    → All (λ b. b ≢ x) front
    → position x (front ++ x ∷ back) ≡ some (length front)
unfolding position
position-append x [] back h = ground arith
position-append x (b ∷ front) back (hb, h) = ground (arith, position-append x front back h)

-- A line that a newline ends, whatever follows.
split_lines-newline :
    (line rest : Bytes)
    → All (λ b. b ≢ b'\n') line
    → split_lines (line ++ b'\n' ∷ rest) ≡ line ∷ split_lines rest
unfolding split_lines
split_lines-newline [] rest h = refl
split_lines-newline (b ∷ line) rest (hb, h) = ground (arith, split_lines-newline line rest h)

-- A record as the format has it: its length in decimal, the key and the value. The length counts
-- all of it, with its own digits and the newline.
pub record IsRecord (len key value : Bytes) : Type 0 where
  pub digits : All IsDigit len
  pub counts : parse_u64 len ≡ some (length len + length key + length value + 3)
  pub key_bytes : All (λ b. b ≢ b'=') key
  pub key_line : All (λ b. b ≢ b'\n') key
  pub value_line : All (λ b. b ≢ b'\n') value

abbrev pub line_of : Bytes → Bytes → Bytes → Bytes
line_of len key value = len ++ b' ' ∷ (key ++ b'=' ∷ value)

module _ (len key value : Bytes) (r : IsRecord len key value) where
  line_of-ends : All (λ b. b ≢ b'\n') (line_of len key value)
  line_of-ends =
      All-append (λ b. b ≢ b'\n') len _
        (All-mono (λ b. b ≢ b'\n') IsDigit len r.digits (λ b d. omega arith))
        (
          (λ e. omega arith),
          All-append (λ b. b ≢ b'\n') key _ r.key_line ((λ e. omega arith), r.value_line),
        )

  reported-line_of :
      reported (line_of len key value)
      ≡ some (length len + 1, length len + length key + length value + 3)
  unfolding reported
  reported-line_of = ground (
    arith,
    position-append b' ' len (key ++ b'=' ∷ value)
        (All-mono (λ b. b ≢ b' ') IsDigit len r.digits (λ b d. omega arith)),
    take-append (length len) len (b' ' ∷ (key ++ b'=' ∷ value)) refl,
    from_utf8_ascii len (All-mono (λ b. b < 128) IsDigit len r.digits (λ b d. omega arith)),
    r.counts,
  )

  body : drop (length len + 1) (line_of len key value) ≡ key ++ b'=' ∷ value
  body =
      sym (drop-drop 1 (length len) (length len + 1) (line_of len key value) refl)
      ∙ ap (drop 1) (drop-append (length len) len (b' ' ∷ (key ++ b'=' ∷ value)) refl)
      ∙ unfold drop in refl

  behind : drop (length len + 1 + length key + 1) (line_of len key value) ≡ value
  behind =
      sym (drop-drop (length key + 1) (length len + 1) _ (line_of len key value) (omega arith))
      ∙ ap (drop (length key + 1)) body
      ∙ sym (drop-drop 1 (length key) (length key + 1) (key ++ b'=' ∷ value) refl)
      ∙ ap (drop 1) (drop-append (length key) key (b'=' ∷ value) refl)
      ∙ unfold drop in refl

  key_value-line_of :
      key_value
        (line_of len key value)
        (length len + 1)
        (length len + length key + length value + 3)
      ≡ some (record { key = key; value = value })
  unfolding key_value
  key_value-line_of = ground (
    arith,
    length-append len (b' ' ∷ (key ++ b'=' ∷ value)),
    length-append key (b'=' ∷ value),
    body,
    position-append b'=' key value r.key_bytes,
    take-append (length key) key (b'=' ∷ value) refl,
    behind,
  )

  parse_line-line_of : parse_line (line_of len key value) ≡ ok (record { key = key; value = value })
  unfolding parse_line
  parse_line-line_of = ground (arith, reported-line_of, key_value-line_of)

  from_lines-line_of :
      (lines : List Bytes)
      → from_lines (line_of len key value ∷ lines)
        ≡ parse_line (line_of len key value) ∷ from_lines lines
  from_lines-line_of lines = starts len
    where
      starts :
          (l : Bytes)
          → from_lines ((l ++ b' ' ∷ (key ++ b'=' ∷ value)) ∷ lines)
            ≡ parse_line (l ++ b' ' ∷ (key ++ b'=' ∷ value)) ∷ from_lines lines
      starts [] = unfold from_lines in refl
      starts (d ∷ l) = unfold from_lines in refl

  extensions-record :
      (rest : Bytes)
      → extensions (line_of len key value ++ b'\n' ∷ rest)
        ≡ ok (record { key = key; value = value }) ∷ extensions rest
  unfolding extensions
  extensions-record rest =
      ap from_lines (split_lines-newline (line_of len key value) rest line_of-ends)
      ∙ from_lines-line_of (split_lines rest)
      ∙ ap (λ (e : Result PaxExtension). e ∷ from_lines (split_lines rest)) parse_line-line_of

-- A whole extended header: each record on a line of its own.
pub record Entry : Type 0 where
  pub len : Bytes
  pub key : Bytes
  pub value : Bytes

abbrev pub encode : List Entry → Bytes
encode [] = []
encode (e ∷ es) = line_of e.len e.key e.value ++ b'\n' ∷ encode es

-- Records that state their own length in digits, whose key holds no `=` and no newline and whose
-- value holds no newline, written one after the other, are parsed to the same keys and values in
-- order.
pub extensions-encode :
    (es : List Entry)
    → All (λ e. IsRecord e.len e.key e.value) es
    → extensions (encode es) ≡ map (λ e. ok (record { key = e.key; value = e.value })) es
extensions-encode [] h = unfold extensions split_lines from_lines in refl
extensions-encode (e ∷ es) (r, h) =
    extensions-record e.len e.key e.value r (encode es)
    ∙ ap (◌∷◌ (ok (record { key = e.key; value = e.value }))) (extensions-encode es h)
