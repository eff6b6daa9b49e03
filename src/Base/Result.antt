-- ===== src/Base/Result.antt =====
-- The errors of the crate and `io::Result`, with the chain of fallible steps.
use async_tar_rs.Base.{ℕ, Bool, true, false, ◌≡◌, refl, ◌⊎◌, inl, inr, ◌==◌, if◌then◌else◌}

-- The messages that the crate passes to `other`, which makes errors of kind `Other`. Texts that
-- they quote are left out.
pub data Message : Type 0 where
  numeric_not_utf8 numeric_not_number : Message
  value_too_long value_has_nul : Message
  path_absolute path_parent_dir path_has_slash path_empty path_unsplittable : Message
  no_username no_groupname no_dev_major no_dev_minor : Message
  sparse_not_gnu : Message
  malformed_pax : Message
  not_at_start failed_block unexpected_eof seek_out_of_bounds : Message
  checksum_mismatch size_overflow no_future_member : Message
  two_long_names two_pax_extensions : Message
  sparse_listed_not_gnu sparse_unaligned sparse_out_of_order sparse_too_long sparse_overrun :
      Message
  sparse_no_extension sparse_size_mismatch sparse_entry_mismatch : Message
  socket_not_archived unknown_file_type : Message
  no_link_name link_name_empty partial_write : Message
  uid_too_large gid_too_large path_has_nul invalid_argument : Message

-- What `map_err` adds in front of a message: the field and whether it was got or set. The kind of
-- the error stays.
pub data Action : Type 0 where
  getting_size getting_mode getting_uid getting_gid getting_mtime getting_cksum : Action
  getting_dev_major getting_dev_minor getting_atime getting_ctime getting_real_size : Action
  getting_offset getting_length : Action
  setting_path setting_link_name setting_username setting_groupname : Action
  iterating creating unpacking creating_dir canonicalizing unpacking_outside : Action
  hard_linking symlinking : Action
  setting_times setting_ownerships setting_permissions setting_xattrs : Action
  getting_metadata : Action

-- `io_error k` is an error that the reader, the writer or the system gave.
pub data Error : Type 0 where
  other : Message → Error
  when : Action → Error → Error
  io_error : ℕ → Error

-- The kinds of `std::io::ErrorKind` that the crate tells apart.
pub data ErrorKind : Type 0 where
  not_found already_exists another_kind : ErrorKind

-- `Error::kind`; the numbers are `ENOENT` and `EEXIST`.
unfoldable pub error_kind : Error → ErrorKind
error_kind (other m) = another_kind
error_kind (when a e) = error_kind e
error_kind (io_error k) =
    if k == 2 then not_found else if k == 17 then already_exists else another_kind

unfoldable pub is_not_found : Error → Bool
unfolding error_kind
is_not_found e = elim (error_kind e) [ not_found ↦ true | _ ↦ false ]

unfoldable pub is_already_exists : Error → Bool
unfolding error_kind
is_already_exists e = elim (error_kind e) [ already_exists ↦ true | _ ↦ false ]

pub data Result {ℓ} (A : Type ℓ) : Type ℓ where
  ok : A → Result A
  err : Error → Result A

-- `Result::map`
abbrev pub map_ok {ℓ κ} : {A : Type ℓ} {B : Type κ} → (A → B) → Result A → Result B
map_ok f (ok a) = ok (f a)
map_ok f (err e) = err e

-- `Result::map_err`
abbrev pub map_err {ℓ} : {A : Type ℓ} → (Error → Error) → Result A → Result A
map_err f (ok a) = ok a
map_err f (err e) = err (f e)

-- The `?` operator.
infixl 5 ◌>>=◌
abbrev pub ◌>>=◌ {ℓ κ} : {B : Type κ} {A : Type ℓ} → Result A → (A → Result B) → Result B
◌>>=◌ attempt next = elim attempt [ err e ↦ err e | ok a ↦ next a ]

pub Result-cases {ℓ} :
    {A : Type ℓ} (r : Result A) → ((a : A) × (r ≡ ok a)) ⊎ ((e : Error) × (r ≡ err e))
Result-cases (ok a) = inl (a, refl)
Result-cases (err e) = inr (e, refl)
