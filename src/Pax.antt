-- ===== src/Pax.antt =====
-- src/pax.rs: the records of a PAX extended header.
pub mod Records
use async_tar_rs.Base.{
  ℕ, zero, suc, ◌+◌, Bool, true, false, Option, none, some, List, [], ◌∷◌, ◌++◌, Bytes, length,
  take, drop, ◌==◌, if◌then◌else◌, ◌&&◌,
}
use async_tar_rs.Base.Result.{Result, ok, err, other, malformed_pax}
use async_tar_rs.Text.Utf8.{from_utf8}
use async_tar_rs.Text.Numbers.{parse_u64}

pub record PaxExtension : Type 0 where
  pub key : Bytes
  pub value : Bytes

-- `iter().position(|b| *b == x)`
unfoldable pub position : ℕ → Bytes → Option ℕ
position x [] = none
position x (b ∷ bytes) =
    if b == x then some 0 else elim (position x bytes) [ none ↦ none | some i ↦ some (suc i) ]

-- `slice::split` at newlines: a list of lines, never empty.
unfoldable pub split_lines : Bytes → List Bytes
split_lines [] = [] ∷ []
split_lines (b ∷ bytes) =
    let rest = split_lines bytes in
    if b == b'\n'
    then [] ∷ rest
    else elim rest [ [] ↦ (b ∷ []) ∷ [] | line ∷ lines ↦ (b ∷ line) ∷ lines ]

-- The length that the record states, with the place where its key begins.
unfoldable pub reported : Bytes → Option (ℕ × ℕ)
reported line = elim (position b' ' line) [
  | none ↦ none
  | some i ↦ elim (from_utf8 (take i line)) [
    | none ↦ none
    | some text ↦ elim (parse_u64 text) [ none ↦ none | some j ↦ some (i + 1, j) ]
  ]
]

unfoldable pub key_value : Bytes → ℕ → ℕ → Option PaxExtension
key_value line kvstart reported_len =
    if length line + 1 == reported_len
    then elim (position b'=' (drop kvstart line)) [
      | none ↦ none
      | some equals ↦ some (record {
        key = take equals (drop kvstart line);
        value = drop (kvstart + equals + 1) line;
      })
    ]
    else none

-- One line that is not empty.
unfoldable pub parse_line : Bytes → Result PaxExtension
unfolding reported key_value
parse_line line = elim (reported line) [
  | none ↦ err (other malformed_pax)
  | some (kvstart, reported_len) ↦ elim (key_value line kvstart reported_len) [
    | none ↦ err (other malformed_pax)
    | some extension ↦ ok extension
  ]
]

-- `PaxExtensions::next` until it returns `None`: an empty line ends the records.
unfoldable pub from_lines : List Bytes → List (Result PaxExtension)
from_lines [] = []
from_lines ([] ∷ lines) = []
from_lines ((b ∷ line) ∷ lines) = parse_line (b ∷ line) ∷ from_lines lines

unfoldable pub extensions : Bytes → List (Result PaxExtension)
unfolding split_lines from_lines
extensions a = from_lines (split_lines a)

abbrev pub text_eq : List ℕ → List ℕ → Bool
text_eq [] [] = true
text_eq [] (y ∷ ys) = false
text_eq (x ∷ xs) [] = false
text_eq (x ∷ xs) (y ∷ ys) = x == y && text_eq xs ys

-- `extension.key() == Ok(key)`
unfoldable pub has_key : Bytes → PaxExtension → Bool
has_key key extension = elim (from_utf8 extension.key) [ none ↦ false | some k ↦ text_eq k key ]

unfoldable pub value_u64 : PaxExtension → Option ℕ
value_u64 extension = elim (from_utf8 extension.value) [ none ↦ none | some text ↦ parse_u64 text ]

-- The loop of `pax_extensions_value`: a malformed record before the key ends the search.
unfoldable pub find_value : Bytes → List (Result PaxExtension) → Option ℕ
find_value key [] = none
find_value key (err e ∷ rest) = none
find_value key (ok extension ∷ rest) =
    if has_key key extension then value_u64 extension else find_value key rest

unfoldable pub pax_extensions_value : Bytes → Bytes → Option ℕ
pax_extensions_value a key = find_value key (extensions a)

abbrev pub pax_size : Bytes
pax_size = b's' ∷ b'i' ∷ b'z' ∷ b'e' ∷ []

abbrev pub pax_uid : Bytes
pax_uid = b'u' ∷ b'i' ∷ b'd' ∷ []

abbrev pub pax_gid : Bytes
pax_gid = b'g' ∷ b'i' ∷ b'd' ∷ []

abbrev pub pax_path : Bytes
pax_path = b'p' ∷ b'a' ∷ b't' ∷ b'h' ∷ []

abbrev pub pax_linkpath : Bytes
pax_linkpath = b'l' ∷ b'i' ∷ b'n' ∷ b'k' ∷ pax_path
