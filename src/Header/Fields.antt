-- ===== src/Header/Fields.antt =====
-- The accessors of the numeric fields, of the type byte, and of the names of owner and group.
use async_tar_rs.Base.{ℕ, ◌%◌, ◌^◌, Bool, none, some, [], ◌∷◌, get_or, ◌==◌, if◌then◌else◌}
use async_tar_rs.Base.Result.{
  Result, err, map_ok, map_err, other, when, sparse_not_gnu, getting_size, getting_mode,
  getting_uid, getting_gid, getting_mtime, getting_atime, getting_ctime, getting_real_size,
}
use async_tar_rs.Codec.{octal_from, octal_into, num_field_wrapper_from, num_field_wrapper_into}
use async_tar_rs.EntryType.{EntryType, new, as_byte, is_gnu_sparse}
use async_tar_rs.Header.Layout.{
  Header, get, put, update, as_gnu, mode_field, uid_field, gid_field, size_field, mtime_field,
  linkflag, atime_field, ctime_field, realsize, isextended,
}

unfoldable pub entry_type : Header → EntryType
entry_type h = new (get_or (get linkflag h) 0 0)

unfoldable pub set_entry_type : EntryType → Header → Header
set_entry_type ty = put linkflag (as_byte ty ∷ [])

unfoldable pub entry_size : Header → Result ℕ
entry_size h = map_err (when getting_size) (num_field_wrapper_from (get size_field h))

-- `GnuHeader::real_size`.
unfoldable pub real_size : Header → Result ℕ
real_size gnu = map_err (when getting_real_size) (octal_from (get realsize gnu))

unfoldable pub size : Header → Result ℕ
size h =
    if is_gnu_sparse (entry_type h)
    then elim (as_gnu h) [ none ↦ err (other sparse_not_gnu) | some gnu ↦ real_size gnu ]
    else entry_size h

unfoldable pub set_size : ℕ → Header → Header
set_size n = update size_field (λ dst. num_field_wrapper_into dst n)

unfoldable pub mode : Header → Result ℕ
mode h = map_err (when getting_mode) (map_ok (λ u. u % 2 ^ 32) (octal_from (get mode_field h)))

unfoldable pub set_mode : ℕ → Header → Header
set_mode m = update mode_field (λ dst. octal_into dst m)

unfoldable pub uid : Header → Result ℕ
uid h = map_err (when getting_uid) (num_field_wrapper_from (get uid_field h))

unfoldable pub set_uid : ℕ → Header → Header
set_uid n = update uid_field (λ dst. num_field_wrapper_into dst n)

unfoldable pub gid : Header → Result ℕ
gid h = map_err (when getting_gid) (num_field_wrapper_from (get gid_field h))

unfoldable pub set_gid : ℕ → Header → Header
set_gid n = update gid_field (λ dst. num_field_wrapper_into dst n)

unfoldable pub mtime : Header → Result ℕ
mtime h = map_err (when getting_mtime) (num_field_wrapper_from (get mtime_field h))

-- `GnuHeader::atime` and the three after it.
unfoldable pub atime : Header → Result ℕ
atime gnu = map_err (when getting_atime) (num_field_wrapper_from (get atime_field gnu))

unfoldable pub set_atime : ℕ → Header → Header
set_atime n = update atime_field (λ dst. num_field_wrapper_into dst n)

unfoldable pub ctime : Header → Result ℕ
ctime gnu = map_err (when getting_ctime) (num_field_wrapper_from (get ctime_field gnu))

unfoldable pub set_ctime : ℕ → Header → Header
set_ctime n = update ctime_field (λ dst. num_field_wrapper_into dst n)

unfoldable pub is_extended : Header → Bool
is_extended gnu = get_or (get isextended gnu) 0 0 == 1
