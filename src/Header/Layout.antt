-- ===== src/Header/Layout.antt =====
-- `Header` and its views `OldHeader`, `UstarHeader` and `GnuHeader`. A view is a cast of the same
-- 512 bytes, so a field is a part of them, at the offset that `#[repr(C)]` gives it.
use async_tar_rs.Base.{ℕ, Bool, ◌&&◌, Option, none, some, [], ◌∷◌, Bytes, replicate, if◌then◌else◌}
use async_tar_rs.Base.Slots.{slice, splice, bytes_eq}
use async_tar_rs.Codec.{num_field_wrapper_into}

pub record Header : Type 0 where
  pub bytes : Bytes

pub record Part : Type 0 where
  pub off : ℕ
  pub len : ℕ

abbrev pub part : ℕ → ℕ → Part
part o n = record { off = o; len = n }

-- Fields that every view has at the same place.
abbrev pub name : Part
name = part 0 100

abbrev pub mode_field : Part
mode_field = part 100 8

abbrev pub uid_field : Part
uid_field = part 108 8

abbrev pub gid_field : Part
gid_field = part 116 8

abbrev pub size_field : Part
size_field = part 124 12

abbrev pub mtime_field : Part
mtime_field = part 136 12

abbrev pub cksum_field : Part
cksum_field = part 148 8

abbrev pub linkflag : Part
linkflag = part 156 1

abbrev pub linkname : Part
linkname = part 157 100

-- Fields that `UstarHeader` and `GnuHeader` share.
abbrev pub magic : Part
magic = part 257 6

abbrev pub version : Part
version = part 263 2

abbrev pub uname : Part
uname = part 265 32

abbrev pub gname : Part
gname = part 297 32

abbrev pub dev_major : Part
dev_major = part 329 8

abbrev pub dev_minor : Part
dev_minor = part 337 8

-- `UstarHeader::prefix`.
abbrev pub prefix : Part
prefix = part 345 155

-- The rest of `GnuHeader`.
abbrev pub atime_field : Part
atime_field = part 345 12

abbrev pub ctime_field : Part
ctime_field = part 357 12

abbrev pub sparse_field : Part
sparse_field = part 386 96

abbrev pub isextended : Part
isextended = part 482 1

abbrev pub realsize : Part
realsize = part 483 12

unfoldable pub get : Part → Header → Bytes
get p h = slice p.off p.len h.bytes

unfoldable pub put : Part → Bytes → Header → Header
put p vals h = record { bytes = splice p.off vals h.bytes }

-- A field that is filled by a function of its old contents.
unfoldable pub update : Part → (Bytes → Bytes) → Header → Header
unfolding get put
update p f h = put p (f (get p h)) h

abbrev pub ustar_magic : Bytes
ustar_magic = b'u' ∷ b's' ∷ b't' ∷ b'a' ∷ b'r' ∷ 0 ∷ []

abbrev pub ustar_version : Bytes
ustar_version = b'0' ∷ b'0' ∷ []

abbrev pub gnu_magic : Bytes
gnu_magic = b'u' ∷ b's' ∷ b't' ∷ b'a' ∷ b'r' ∷ b' ' ∷ []

abbrev pub gnu_version : Bytes
gnu_version = b' ' ∷ 0 ∷ []

abbrev pub blank : Header
blank = record { bytes = replicate 512 0 }

unfoldable pub set_mtime : ℕ → Header → Header
set_mtime mtime = update mtime_field (λ dst. num_field_wrapper_into dst mtime)

unfoldable pub new_gnu : Header
unfolding put set_mtime
new_gnu = set_mtime 0 (put version gnu_version (put magic gnu_magic blank))

unfoldable pub new_ustar : Header
unfolding put set_mtime
new_ustar = set_mtime 0 (put version ustar_version (put magic ustar_magic blank))

unfoldable pub new_old : Header
unfolding set_mtime
new_old = set_mtime 0 blank

unfoldable pub is_ustar : Header → Bool
is_ustar h = bytes_eq (get magic h) ustar_magic && bytes_eq (get version h) ustar_version

unfoldable pub is_gnu : Header → Bool
is_gnu h = bytes_eq (get magic h) gnu_magic && bytes_eq (get version h) gnu_version

-- The views that check the format; both are the header itself.
unfoldable pub as_ustar : Header → Option Header
as_ustar h = if is_ustar h then some h else none

unfoldable pub as_gnu : Header → Option Header
as_gnu h = if is_gnu h then some h else none
