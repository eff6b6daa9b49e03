-- ===== src/Unpack/Archives.antt =====
-- src/archive.rs, `Archive::unpack`: what every entry keeps of the file system, an archive keeps.
use async_tar_rs.Base.{
  ℕ, zero, suc, Bool, true, false, Option, none, some, List, [], ◌∷◌, ◌++◌, Bytes, if◌then◌else◌,
}
use async_tar_rs.Base.Result.{Result, ok, err, when, iterating}
use async_tar_rs.Poll.{M, ◌>>◌, fail, after_keeps}
use async_tar_rs.EntryType.{is_dir}
use async_tar_rs.Header.{entry_type}
use async_tar_rs.Archive.Inner.{AsyncRead}
use async_tar_rs.Archive.Entries.{EntriesFields}
use async_tar_rs.Entry.Fields.{EntryFields}
use async_tar_rs.Unpack.System.{FileSystem}
use async_tar_rs.Unpack.Place.{
  Job, Site, unpack_entry, next_of, unpack_directories, unpack_loop, unpack_all,
}
use async_tar_rs.Unpack.Within.{IsGuarded, unpack_in_keeps}

module _ {R F : Type 0} (sys : FileSystem F) (dst : Bytes) (P : F → Type 0) (Q : Bytes → F → Type 0)
    (guarded : IsGuarded sys dst P Q) (io : AsyncRead R) (chunk : ℕ) (room : ℕ → ℕ) (fuel : ℕ) where
  abbrev Kept : Job R F → Type 0
  Kept j = P j.fs

  unpack_entry_keeps :
      (e : EntryFields) (j : Job R F)
      → Kept j
      → Kept (unpack_entry io sys chunk room fuel e dst j).0
  unfolding unpack_entry
  unpack_entry_keeps e j h =
      (unpack_in_keeps sys dst P Q guarded io chunk room fuel e).keeps
        (record {
          cursor = record {
            inner = j.entries.archive;
            io_data = e.io_data;
            read_state = e.read_state;
          };
          fs = j.fs;
        })
        h

  unpack_directories_keeps :
      (dirs : List EntryFields) (j : Job R F)
      → Kept j
      → Kept (unpack_directories io sys chunk room fuel dst dirs j).0
  unfolding unpack_directories
  unpack_directories_keeps [] j h = h
  unpack_directories_keeps (dir ∷ dirs) j h =
      after_keeps Kept (λ _. unpack_directories io sys chunk room fuel dst dirs)
        (unpack_entry io sys chunk room fuel dir dst j) (unpack_entry_keeps dir j h)
        (λ _ s k. unpack_directories_keeps dirs s k)

  abbrev loop : ℕ → List EntryFields → M (Job R F) (Unit {0})
  loop rounds dirs = unpack_loop io sys chunk room fuel rounds dst dirs

  -- What is done about one answer of the stream.
  abbrev loop_body : ℕ → List EntryFields → Option (Result EntryFields) → M (Job R F) (Unit {0})
  loop_body rounds dirs none = unpack_directories io sys chunk room fuel dst dirs
  loop_body rounds dirs (some (err e)) = fail (when iterating e)
  loop_body rounds dirs (some (ok file)) =
      if is_dir (entry_type file.header)
      then loop rounds (dirs ++ (file ∷ []))
      else (unpack_entry io sys chunk room fuel file dst >> loop rounds dirs)

  unpack_loop_keeps :
      (rounds : ℕ) (dirs : List EntryFields) (j : Job R F) → Kept j → Kept (loop rounds dirs j).0
  unfolding unpack_loop
  unpack_loop_keeps zero dirs j h = h
  unpack_loop_keeps (suc rounds) dirs j h =
      after_keeps Kept (loop_body rounds dirs) (next_of io sys chunk room fuel j) h
        (each (λ dirs' s k. unpack_loop_keeps rounds dirs' s k))
    where
      file_keeps :
          ((dirs' : List EntryFields) (s' : Job R F) → Kept s' → Kept (loop rounds dirs' s').0)
          → (file : EntryFields) (b : Bool) (s : Job R F) → Kept s
          → Kept
              ((if b
                  then loop rounds (dirs ++ (file ∷ []))
                  else (unpack_entry io sys chunk room fuel file dst >> loop rounds dirs))
                s).0
      file_keeps further file true s k = further (dirs ++ (file ∷ [])) s k
      file_keeps further file false s k =
          after_keeps Kept (λ _. loop rounds dirs) (unpack_entry io sys chunk room fuel file dst s)
            (unpack_entry_keeps file s k) (λ _ s' k'. further dirs s' k')

      each :
          ((dirs' : List EntryFields) (s' : Job R F) → Kept s' → Kept (loop rounds dirs' s').0)
          → (entry : Option (Result EntryFields)) (s : Job R F) → Kept s
          → Kept (loop_body rounds dirs entry s).0
      each further none s k = unpack_directories_keeps dirs s k
      each further (some (err e)) s k = k
      each further (some (ok file)) s k =
          file_keeps further file (is_dir (entry_type file.header)) s k

  -- All entries together.
  pub unpack_all_keeps :
      (rounds : ℕ) (es : EntriesFields R) (s : Site R F)
      → P s.fs
      → P (unpack_all io sys chunk room fuel rounds dst es s).0.fs
  unfolding unpack_all
  unpack_all_keeps rounds es s h =
      unpack_loop_keeps rounds [] (record { entries = es; fs = s.fs }) h
