-- ===== src/Unpack/Owner.antt =====
-- src/entry.rs, the inner functions of `unpack` for times, owners, permissions and attributes.
use async_tar_rs.Base.{
  ℕ, ◌-◌, ◌^◌, Bool, Option, none, some, List, [], ◌∷◌, Bytes, any, ltb, drop, take, ◌==◌, not,
  ◌&&◌, if◌then◌else◌,
}
use async_tar_rs.Base.Slots.{bytes_eq}
use async_tar_rs.Base.Integers.{ℤ, as_i64}
use async_tar_rs.Base.Result.{
  Result, ok, err, other, uid_too_large, gid_too_large, path_has_nul, setting_ownerships,
  setting_permissions, setting_xattrs,
}
use async_tar_rs.Poll.{M, ◌>>=◌, ◌>>◌, return, fail, from, wrap, or_else}
use async_tar_rs.EntryType.{is_pax_global_extensions, is_pax_local_extensions}
use async_tar_rs.Header.{Header, uid, gid, mode, mtime, entry_type}
use async_tar_rs.Pax.{PaxExtension, extensions}
use async_tar_rs.Archive.Inner.{AsyncRead, Settings}
use async_tar_rs.Entry.Fields.{EntryFields}
use async_tar_rs.Entry.Read.{poll_read_all}
use async_tar_rs.Unpack.System.{
  set_permissions, set_file_permissions, lchown, fchown, set_xattr, FileSystem, World, run,
  on_cursor,
}
use Prim.Native.Nat.{bit_and}

-- `get_mtime`, in seconds, as the 64 bits of the `i64` that `mtime as i64` makes of it.
unfoldable pub get_mtime : Header → Option ℤ
unfolding as_i64
get_mtime h = elim (mtime h) [ err e ↦ none | ok t ↦ some (as_i64 (if t == 0 then 1 else t)) ]

-- The bits that `_set_perms` sets: `mode & !mask` on 32 bits, without the bits above the nine of
-- the permissions unless they are kept.
unfoldable pub permissions : ℕ → ℕ → Bool → ℕ
permissions mode mask preserve =
    bit_and (if preserve then mode else bit_and mode 0o777) (2 ^ 32 - 1 - mask)

module _ {R F : Type 0} (sys : FileSystem F) where
  -- `_set_ownerships`; the file, if there is one, is open.
  unfoldable pub set_ownerships : Bytes → Option ℕ → ℕ → ℕ → M (World R F) (Unit {0})
  unfolding run
  set_ownerships dst f uid gid = do
    if ltb uid (2 ^ 32) then return tt else fail (other uid_too_large)
    if ltb gid (2 ^ 32) then return tt else fail (other gid_too_large)
    elim f [
      | some fd ↦ run sys (fchown fd uid gid)
      | none ↦
          if any (λ b. b == 0) dst then fail (other path_has_nul) else run sys (lchown dst uid gid)
    ]

  -- `_set_perms`
  unfoldable pub set_perms : Bytes → Option ℕ → ℕ → ℕ → Bool → M (World R F) (Unit {0})
  unfolding permissions run
  set_perms dst none mode mask preserve =
      run sys (set_permissions dst (permissions mode mask preserve))
  set_perms dst (some fd) mode mask preserve =
      run sys (set_file_permissions fd (permissions mode mask preserve))

  -- The owner comes first, so that setting it does not strip bits of the permissions.
  unfoldable pub own : Bytes → Option ℕ → Header → M (World R F) (Unit {0})
  unfolding set_ownerships
  own dst f header = do
    u ← from (uid header)
    g ← from (gid header)
    wrap setting_ownerships (set_ownerships dst f u g)

  unfoldable pub set_perms_ownerships :
      Bytes → Option ℕ → Header → Settings → M (World R F) (Unit {0})
  unfolding own set_perms
  set_perms_ownerships dst f header s = do
    if s.preserve_ownerships then own dst f header else return tt
    elim (mode header) [
      | ok m ↦ wrap setting_permissions (set_perms dst f m s.mask s.preserve_permissions)
      | err e ↦ return tt
    ]

  unfoldable pub set_each_xattr : Bytes → List (Bytes × Bytes) → M (World R F) (Unit {0})
  unfolding run
  set_each_xattr dst [] = return tt
  set_each_xattr dst ((key, value) ∷ exts) = do
    wrap setting_xattrs (run sys (set_xattr dst key value))
    set_each_xattr dst exts

abbrev pub xattr_prefix : Bytes
xattr_prefix =
    b'S' ∷ b'C' ∷ b'H' ∷ b'I' ∷ b'L' ∷ b'Y' ∷ b'.' ∷ b'x' ∷ b'a' ∷ b't' ∷ b't' ∷ b'r' ∷ b'.' ∷ []

-- The two `filter_map`s of `set_xattrs`, and the keys without the prefix.
unfoldable pub xattrs_of : List (Result PaxExtension) → List (Bytes × Bytes)
xattrs_of [] = []
xattrs_of (err e ∷ exts) = xattrs_of exts
xattrs_of (ok e ∷ exts) =
    let rest = xattrs_of exts in
    if bytes_eq (take 13 e.key) xattr_prefix then (drop 13 e.key, e.value) ∷ rest else rest

module _ {R F : Type 0} (io : AsyncRead R) (sys : FileSystem F) (room : ℕ → ℕ) (fuel : ℕ) where
  -- The records that describe the entry, or its own data where it is a member of records.
  unfoldable pub pax_or_data : Option Bytes → EntryFields → M (World R F) (Option Bytes)
  unfolding poll_read_all
  pax_or_data (some pax) e = return (some pax)
  pax_or_data none e =
      if not (is_pax_global_extensions (entry_type e.header))
        && not (is_pax_local_extensions (entry_type e.header))
      then return none
      else do pax ← on_cursor (poll_read_all io room fuel); return (some pax)

  -- `EntryFields::pax_extensions`
  unfoldable pub pax_extensions : EntryFields → M (World R F) (Option Bytes)
  unfolding pax_or_data
  pax_extensions e = pax_or_data e.pax_extensions e

  -- `set_xattrs`, with the feature "xattr": an error of the records is passed over.
  unfoldable pub set_xattrs : EntryFields → Bytes → M (World R F) (Unit {0})
  unfolding pax_extensions set_each_xattr xattrs_of
  set_xattrs e dst = do
    exts ← or_else (pax_extensions e) (λ e. return none)
    elim exts [ some pax ↦ set_each_xattr sys dst (xattrs_of (extensions pax)) | none ↦ return tt ]
