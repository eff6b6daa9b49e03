-- ===== src/Entry/Fields.antt =====
-- `EntryFields` and `EntryIo`, and the names that an entry goes by.
use async_tar_rs.Base.{
  not, true, false, ◌++◌, ℕ, Bool, Option, none, some, List, [], ◌∷◌, Bytes, get_or, ◌==◌,
  if◌then◌else◌, ◌&&◌,
}
use async_tar_rs.Base.Result.{Result, ok, err}
use async_tar_rs.Codec.{truncate}
use async_tar_rs.Base.Slots.{bytes_eq}
use async_tar_rs.Header.{Header, get, as_ustar, name, prefix, linkname}
use async_tar_rs.Pax.{PaxExtension, extensions, pax_path, pax_linkpath}
use async_tar_rs.Archive.Inner.{Settings}

-- A stretch of an entry's data with the bytes left in it: zeros, or bytes of the archive.
pub data EntryIo : Type 0 where
  pad : ℕ → EntryIo
  data_of : ℕ → EntryIo

pub record EntryFields : Type 0 where
  pub long_pathname : Option Bytes
  pub long_linkname : Option Bytes
  pub pax_extensions : Option Bytes
  pub settings : Settings
  pub header : Header
  pub size : ℕ
  pub header_pos : ℕ
  pub file_pos : ℕ
  pub io_data : List EntryIo
  pub read_state : Option EntryIo

-- `if let Some(&0) = bytes.last()`: one NUL at the end is left out.
unfoldable pub without_nul : Bytes → Bytes
without_nul [] = []
without_nul (b ∷ []) = if b == 0 then [] else b ∷ []
without_nul (b ∷ c ∷ bytes) = b ∷ without_nul (c ∷ bytes)

-- `.filter_map(|f| f.ok()).find(|f| f.key_bytes() == key).map(|f| f.value_bytes())`
unfoldable pub find_key : Bytes → List (Result PaxExtension) → Option Bytes
find_key key [] = none
find_key key (err e ∷ rest) = find_key key rest
find_key key (ok f ∷ rest) = if bytes_eq f.key key then some f.value else find_key key rest

abbrev pub contains : ℕ → Bytes → Bool
contains x [] = false
contains x (b ∷ bytes) = if b == x then true else contains x bytes

-- `UstarHeader::path_bytes`
unfoldable pub ustar_path_bytes : Header → Bytes
ustar_path_bytes h =
    if get_or (get prefix h) 0 0 == 0 && not (contains 0x5c (get name h))
    then truncate (get name h)
    else elim (truncate (get prefix h)) [
      | [] ↦ truncate (get name h)
      | c ∷ front ↦ (c ∷ front) ++ (b'/' ∷ truncate (get name h))
    ]

-- `Header::path_bytes`
unfoldable pub header_path_bytes : Header → Bytes
header_path_bytes h = elim (as_ustar h) [
  | some ustar ↦ ustar_path_bytes ustar
  | none ↦ truncate (get name h)
]

-- `Header::link_name_bytes`
unfoldable pub header_link_name_bytes : Header → Option Bytes
header_link_name_bytes h =
    if get_or (get linkname h) 0 0 == 0 then none else some (truncate (get linkname h))

unfoldable pub pax_value : Bytes → Option Bytes → Option Bytes
pax_value key none = none
pax_value key (some pax) = find_key key (extensions pax)

unfoldable pub path_bytes : EntryFields → Bytes
path_bytes e = elim e.long_pathname [
  | some bytes ↦ without_nul bytes
  | none ↦ elim (pax_value pax_path e.pax_extensions) [
    | some field ↦ field
    | none ↦ header_path_bytes e.header
  ]
]

unfoldable pub link_name_bytes : EntryFields → Option Bytes
link_name_bytes e = elim e.long_linkname [
  | some bytes ↦ some (without_nul bytes)
  | none ↦ elim (pax_value pax_linkpath e.pax_extensions) [
    | some field ↦ some field
    | none ↦ header_link_name_bytes e.header
  ]
]
