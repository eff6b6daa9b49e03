-- ===== src/Header/Formats.antt =====
-- src/header.rs: the fields that only the UStar and the GNU format have.
use async_tar_rs.Base.{ℕ, ◌%◌, ◌^◌, Option, none, some, List, Bytes}
use async_tar_rs.Base.Result.{
  Result, ok, err, map_ok, map_err, other, when, no_username, no_groupname, no_dev_major,
  no_dev_minor, getting_dev_major, getting_dev_minor, setting_username, setting_groupname, Action,
}
use async_tar_rs.Text.Utf8.{from_utf8}
use async_tar_rs.Codec.{truncate, octal_from, octal_into, copy_into}
use async_tar_rs.Header.Layout.{
  Header, Part, get, put, update, as_ustar, as_gnu, uname, gname, dev_major, dev_minor,
}

-- The choice between the two formats.
abbrev pub in_format {ℓ} : {A : Type ℓ} → Header → (Header → A) → (Header → A) → A → A
in_format h f g otherwise = elim (as_ustar h) [
  | some ustar ↦ f ustar
  | none ↦ elim (as_gnu h) [ some gnu ↦ g gnu | none ↦ otherwise ]
]

-- The header is filled in place, so an error leaves it as it was.
abbrev stored_name : Part → Action → Bytes → Header → Result Header
stored_name p action n v =
    map_err (when action) (map_ok (λ slot. put p slot v) (copy_into (get p v) n))

-- `as u32` of what the field holds.
abbrev device : Part → Action → Header → Result ℕ
device p action v = map_err (when action) (map_ok (λ u. u % 2 ^ 32) (octal_from (get p v)))

-- `UstarHeader`: the names of owner and group, and the numbers of a device.
abbrev pub ustar_username_bytes : Header → Bytes
ustar_username_bytes v = truncate (get uname v)

abbrev pub ustar_set_username : Bytes → Header → Result Header
ustar_set_username n v = stored_name uname setting_username n v

abbrev pub ustar_groupname_bytes : Header → Bytes
ustar_groupname_bytes v = truncate (get gname v)

abbrev pub ustar_set_groupname : Bytes → Header → Result Header
ustar_set_groupname n v = stored_name gname setting_groupname n v

abbrev pub ustar_device_major : Header → Result ℕ
ustar_device_major v = device dev_major getting_dev_major v

abbrev pub ustar_set_device_major : ℕ → Header → Header
ustar_set_device_major major v = update dev_major (λ dst. octal_into dst major) v

abbrev pub ustar_device_minor : Header → Result ℕ
ustar_device_minor v = device dev_minor getting_dev_minor v

abbrev pub ustar_set_device_minor : ℕ → Header → Header
ustar_set_device_minor minor v = update dev_minor (λ dst. octal_into dst minor) v

-- `GnuHeader`: the names of owner and group, and the numbers of a device.
abbrev pub gnu_username_bytes : Header → Bytes
gnu_username_bytes v = truncate (get uname v)

abbrev pub gnu_set_username : Bytes → Header → Result Header
gnu_set_username n v = stored_name uname setting_username n v

abbrev pub gnu_groupname_bytes : Header → Bytes
gnu_groupname_bytes v = truncate (get gname v)

abbrev pub gnu_set_groupname : Bytes → Header → Result Header
gnu_set_groupname n v = stored_name gname setting_groupname n v

abbrev pub gnu_device_major : Header → Result ℕ
gnu_device_major v = device dev_major getting_dev_major v

abbrev pub gnu_set_device_major : ℕ → Header → Header
gnu_set_device_major major v = update dev_major (λ dst. octal_into dst major) v

abbrev pub gnu_device_minor : Header → Result ℕ
gnu_device_minor v = device dev_minor getting_dev_minor v

abbrev pub gnu_set_device_minor : ℕ → Header → Header
gnu_set_device_minor minor v = update dev_minor (λ dst. octal_into dst minor) v

unfoldable pub username_bytes : Header → Option Bytes
username_bytes h =
    in_format h (λ v. some (ustar_username_bytes v)) (λ v. some (gnu_username_bytes v)) none

-- The characters of the name; `none` is the error for a name that is not UTF-8.
unfoldable pub username : Header → Option (Option (List ℕ))
unfolding username_bytes
username h = elim (username_bytes h) [
  | some bytes ↦ elim (from_utf8 bytes) [ some text ↦ some (some text) | none ↦ none ]
  | none ↦ some none
]

unfoldable pub set_username : Bytes → Header → Result Header
set_username n h = in_format h (ustar_set_username n) (gnu_set_username n) (err (other no_username))

unfoldable pub groupname_bytes : Header → Option Bytes
groupname_bytes h =
    in_format h (λ v. some (ustar_groupname_bytes v)) (λ v. some (gnu_groupname_bytes v)) none

-- The characters of the name; `none` is the error for a name that is not UTF-8.
unfoldable pub groupname : Header → Option (Option (List ℕ))
unfolding groupname_bytes
groupname h = elim (groupname_bytes h) [
  | some bytes ↦ elim (from_utf8 bytes) [ some text ↦ some (some text) | none ↦ none ]
  | none ↦ some none
]

unfoldable pub set_groupname : Bytes → Header → Result Header
set_groupname n h =
    in_format h (ustar_set_groupname n) (gnu_set_groupname n) (err (other no_groupname))

unfoldable pub device_major : Header → Result (Option ℕ)
device_major h =
    in_format h (λ v. map_ok (λ u. some u) (ustar_device_major v))
      (λ v. map_ok (λ u. some u) (gnu_device_major v)) (ok none)

unfoldable pub set_device_major : ℕ → Header → Result Header
set_device_major major h =
    in_format h (λ v. ok (ustar_set_device_major major v)) (λ v. ok (gnu_set_device_major major v))
      (err (other no_dev_major))

unfoldable pub device_minor : Header → Result (Option ℕ)
device_minor h =
    in_format h (λ v. map_ok (λ u. some u) (ustar_device_minor v))
      (λ v. map_ok (λ u. some u) (gnu_device_minor v)) (ok none)

unfoldable pub set_device_minor : ℕ → Header → Result Header
set_device_minor minor h =
    in_format h (λ v. ok (ustar_set_device_minor minor v)) (λ v. ok (gnu_set_device_minor minor v))
      (err (other no_dev_minor))
