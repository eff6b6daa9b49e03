-- ===== src/Unpack/Place.antt =====
-- `EntryFields::unpack_in` of src/entry.rs and `Archive::unpack` of src/archive.rs.
use async_tar_rs.Base.{
  ℕ, zero, suc, Bool, true, false, Option, none, some, List, [], ◌∷◌, ◌++◌, Bytes, if◌then◌else◌,
}
use async_tar_rs.Base.Result.{Result, ok, err, map_ok, when, creating, unpacking, iterating}
use async_tar_rs.Poll.{Outcome, out_of_fuel, M, ◌>>=◌, ◌>>◌, return, fail, from, read, after, wrap}
use async_tar_rs.Text.Paths.{
  Component, root_dir, cur_dir, parent_dir, normal, components, push, parent, path_eq,
}
use async_tar_rs.EntryType.{is_dir}
use async_tar_rs.Header.{entry_type}
use async_tar_rs.Header.Metadata.{Metadata}
use async_tar_rs.Archive.Inner.{AsyncRead, ArchiveInner}
use async_tar_rs.Archive.Entries.{EntriesFields, entries}
use async_tar_rs.Archive.Next.{poll_next}
use async_tar_rs.Entry.Fields.{EntryFields, path_bytes}
use async_tar_rs.Unpack.System.{Call, create_dir_all, FileSystem, World}
use async_tar_rs.Unpack.Inside.{validate_inside_dst, ensure_dir_created}
use async_tar_rs.Unpack.File.{unpack}

-- The place of an entry under `dst`: its normal components, or none where there is a `..`.
unfoldable pub place : Bytes → List Component → Option Bytes
unfolding push
place file_dst [] = some file_dst
place file_dst (root_dir ∷ parts) = place file_dst parts
place file_dst (cur_dir ∷ parts) = place file_dst parts
place file_dst (parent_dir ∷ parts) = none
place file_dst (normal part ∷ parts) = place (push file_dst part) parts

module _ {R F : Type 0} (io : AsyncRead R) (sys : FileSystem F) (chunk : ℕ) (room : ℕ → ℕ)
    (fuel : ℕ) where
  -- What follows the checks of the path.
  unfoldable pub unpack_at : EntryFields → Bytes → Bytes → Bytes → M (World R F) Bool
  unfolding ensure_dir_created validate_inside_dst unpack
  unpack_at e dst file_dst up = do
    wrap creating (ensure_dir_created sys dst up)
    canon_target ← validate_inside_dst sys dst up
    wrap unpacking (unpack io sys chunk room fuel e (some canon_target) file_dst)
    return true

  -- `EntryFields::unpack_in`
  unfoldable pub unpack_in : EntryFields → Bytes → M (World R F) Bool
  unfolding place components path_bytes path_eq parent unpack_at
  unpack_in e dst = elim (place dst (components (path_bytes e))) [
    | none ↦ return false
    | some file_dst ↦
        if path_eq dst file_dst
        then return true
        else elim (parent file_dst) [ none ↦ return false | some up ↦ unpack_at e dst file_dst up ]
  ]

-- The entries of an archive and the file system.
pub record Job (R F : Type 0) : Type 0 where
  pub entries : EntriesFields R
  pub fs : F

module _ {R F : Type 0} (io : AsyncRead R) (sys : FileSystem F) (chunk : ℕ) (room : ℕ → ℕ)
    (fuel : ℕ) where
  -- An entry that is unpacked borrows the archive.
  unfoldable pub unpack_entry : EntryFields → Bytes → M (Job R F) Bool
  unfolding unpack_in
  unpack_entry e dst j =
      let start : World R F = record {
        cursor = record {
          inner = j.entries.archive;
          io_data = e.io_data;
          read_state = e.read_state;
        };
        fs = j.fs;
      } in
      let end = unpack_in io sys chunk room fuel e dst start in
      (
        record j { entries = record j.entries { archive = end.0.cursor.inner }; fs = end.0.fs },
        end.1,
      )

  abbrev pub next_of : M (Job R F) (Option (Result EntryFields))
  next_of j = (
    record j { entries = (poll_next io room fuel j.entries).0 },
    (poll_next io room fuel j.entries).1,
  )

  -- The directories, which were put off, in the order of the archive.
  unfoldable pub unpack_directories : Bytes → List EntryFields → M (Job R F) (Unit {0})
  unfolding unpack_entry
  unpack_directories dst [] = return tt
  unpack_directories dst (dir ∷ directories) = do
    unpack_entry dir dst
    unpack_directories dst directories

  unfoldable pub unpack_loop : ℕ → Bytes → List EntryFields → M (Job R F) (Unit {0})
  unfolding unpack_directories
  unpack_loop zero dst directories j = (j, out_of_fuel)
  unpack_loop (suc rounds) dst directories j =
      after
        (λ entry. elim entry [
          | none ↦ unpack_directories dst directories
          | some (err e) ↦ fail (when iterating e)
          | some (ok file) ↦
              let put_off = unpack_loop rounds dst (directories ++ (file ∷ [])) in
              let go_on = unpack_loop rounds dst directories in
              if is_dir (entry_type file.header) then put_off else (do unpack_entry file dst; go_on)
        ])
        (next_of j)

-- The archive and the file system.
pub record Site (R F : Type 0) : Type 0 where
  pub archive : ArchiveInner R
  pub fs : F

module _ {R F : Type 0} (io : AsyncRead R) (sys : FileSystem F) (chunk : ℕ) (room : ℕ → ℕ)
    (fuel : ℕ) where
  abbrev at_root : Call → M (Site R F) (Unit {0})
  at_root c s =
      (record s { fs = (sys.call c s.fs).0 }, Outcome.ready (map_ok (λ _. tt) (sys.call c s.fs).1))

  unfoldable pub make_missing : Bytes → Result Metadata → M (Site R F) (Unit {0})
  make_missing dst (ok m) = return tt
  make_missing dst (err e) = wrap creating (at_root (create_dir_all dst))

  unfoldable pub make_dst : Bytes → M (Site R F) (Unit {0})
  unfolding make_missing
  make_dst dst s = make_missing dst (sys.symlink_metadata s.fs dst) s

  -- `dst.canonicalize().unwrap_or(dst.to_path_buf())`
  unfoldable pub canonical_dst : Bytes → F → Bytes
  canonical_dst dst fs = elim (sys.canonicalize fs dst) [ ok real ↦ real | err e ↦ dst ]

  unfoldable pub unpack_all : ℕ → Bytes → EntriesFields R → M (Site R F) (Unit {0})
  unfolding unpack_loop
  unpack_all rounds dst es s =
      let start : Job R F = record { entries = es; fs = s.fs } in
      let end = unpack_loop io sys chunk room fuel rounds dst [] start in
      (record { archive = end.0.entries.archive; fs = end.0.fs }, end.1)

  -- `Archive::_unpack`, with no more rounds than entries and one for the end.
  unfoldable pub archive_unpack : ℕ → Bytes → M (Site R F) (Unit {0})
  unfolding make_dst canonical_dst unpack_all
  archive_unpack rounds dst = do
    make_dst dst
    real ← read (λ s. canonical_dst dst s.fs)
    es ← λ s. from (entries false s.archive) s
    unpack_all rounds real es
