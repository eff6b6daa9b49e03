-- ===== src/EntryType.antt =====
-- src/entry_type.rs: the kinds of entries and their type bytes.
use async_tar_rs.Base.{ℕ, ◌≡◌, Bool, true, false, ◌||◌, arith, ◌==◌, if◌then◌else◌}

-- `__Nonexhaustive(u8)` is `unknown`.
pub data EntryType : Type 0 where
  regular link symlink char block directory fifo continuous : EntryType
  gnu_long_name gnu_long_link gnu_sparse x_global_header x_header : EntryType
  unknown : ℕ → EntryType

unfoldable pub new : ℕ → EntryType
new byte =
    if byte == 0 || byte == b'0'
    then regular
    else if byte == b'1'
    then link
    else if byte == b'2'
    then symlink
    else if byte == b'3'
    then char
    else if byte == b'4'
    then block
    else if byte == b'5'
    then directory
    else if byte == b'6'
    then fifo
    else if byte == b'7'
    then continuous
    else if byte == b'x'
    then x_header
    else if byte == b'g'
    then x_global_header
    else if byte == b'L'
    then gnu_long_name
    else if byte == b'K'
    then gnu_long_link
    else if byte == b'S'
    then gnu_sparse
    else unknown byte

unfoldable pub as_byte : EntryType → ℕ
as_byte regular = b'0'
as_byte link = b'1'
as_byte symlink = b'2'
as_byte char = b'3'
as_byte block = b'4'
as_byte directory = b'5'
as_byte fifo = b'6'
as_byte continuous = b'7'
as_byte x_header = b'x'
as_byte x_global_header = b'g'
as_byte gnu_long_name = b'L'
as_byte gnu_long_link = b'K'
as_byte gnu_sparse = b'S'
as_byte (unknown b) = b

-- `EntryType::dir()` and the other predicates are tests of `==` with one constructor.
unfoldable pub is_file : EntryType → Bool
is_file t = elim t [ regular ↦ true | _ ↦ false ]

unfoldable pub is_hard_link : EntryType → Bool
is_hard_link t = elim t [ link ↦ true | _ ↦ false ]

unfoldable pub is_symlink : EntryType → Bool
is_symlink t = elim t [ symlink ↦ true | _ ↦ false ]

unfoldable pub is_dir : EntryType → Bool
is_dir t = elim t [ directory ↦ true | _ ↦ false ]

unfoldable pub is_gnu_longname : EntryType → Bool
is_gnu_longname t = elim t [ gnu_long_name ↦ true | _ ↦ false ]

unfoldable pub is_gnu_longlink : EntryType → Bool
is_gnu_longlink t = elim t [ gnu_long_link ↦ true | _ ↦ false ]

unfoldable pub is_gnu_sparse : EntryType → Bool
is_gnu_sparse t = elim t [ gnu_sparse ↦ true | _ ↦ false ]

unfoldable pub is_pax_global_extensions : EntryType → Bool
is_pax_global_extensions t = elim t [ x_global_header ↦ true | _ ↦ false ]

unfoldable pub is_pax_local_extensions : EntryType → Bool
is_pax_local_extensions t = elim t [ x_header ↦ true | _ ↦ false ]

-- Reading a type byte and writing it out gives the byte, but for the byte 0, which comes back as
-- `0`.
pub as_byte-new : (byte : ℕ) → as_byte (new byte) ≡ (if byte == 0 then b'0' else byte)
unfolding new as_byte
as_byte-new byte = ground arith

-- The types that a byte can be read as are read back as themselves from the byte they are written
-- as.
pub new-as_byte : (byte : ℕ) → new (as_byte (new byte)) ≡ new byte
unfolding new as_byte
new-as_byte byte = ground arith
