-- ===== src/Unpack/File.antt =====
-- src/entry.rs: `EntryFields::unpack`, which makes one entry a directory, a link or a file.
use async_tar_rs.Base.{
  ℕ, zero, suc, ◌+◌, ◌-◌, Bool, false, not, ◌&&◌, ◌||◌, Option, none, some, List, [], ◌∷◌, Bytes,
  length, min, ◌==◌, if◌then◌else◌,
}
use async_tar_rs.Base.Integers.{ℤ, as_i64}
use async_tar_rs.Base.Result.{
  Result, ok, err, Error, other, when, is_not_found, is_already_exists, creating_dir, hard_linking,
  symlinking, setting_times, no_link_name, link_name_empty, partial_write,
}
use async_tar_rs.Poll.{
  Outcome, out_of_fuel, M, ◌>>=◌, ◌>>◌, return, fail, from, read, after, wrap, or_else,
}
use async_tar_rs.Text.Paths.{components, push, ends_with_slash}
use async_tar_rs.EntryType.{
  is_dir, is_hard_link, is_symlink, is_pax_global_extensions, is_pax_local_extensions,
  is_gnu_longname, is_gnu_longlink,
}
use async_tar_rs.Header.{entry_type, as_ustar}
use async_tar_rs.Header.Metadata
use async_tar_rs.Archive.Inner.{AsyncRead, poll_read}
use async_tar_rs.Entry.Fields.{EntryFields, EntryIo, pad, data_of, path_bytes, link_name_bytes}
use async_tar_rs.Entry.Read.{on_inner}
use async_tar_rs.Unpack.System.{
  Call, create_dir, remove_file, create_new, hard_link, symlink, write, seek_by, set_len, set_times,
  set_symlink_times, FileSystem, World, calling, run, on_cursor,
}
use async_tar_rs.Unpack.Inside.{validate_inside_dst}
use async_tar_rs.Unpack.Owner.{get_mtime, set_perms_ownerships, set_xattrs}

-- `Unpacked`
pub data Unpacked : Type 0 where
  file : ℕ → Unpacked
  nonexhaustive : Unpacked

-- The link name, which has a component.
unfoldable pub link_name : EntryFields → Result Bytes
unfolding link_name_bytes components
link_name e = elim (link_name_bytes e) [
  | none ↦ err (other no_link_name)
  | some src ↦ elim (components src) [ [] ↦ err (other link_name_empty) | c ∷ cs ↦ ok src ]
]

-- `fs::metadata(dst)`, and whether it is that of a directory.
abbrev pub is_dir_at : {F : Type 0} → FileSystem F → Bytes → F → Bool
is_dir_at sys dst fs = elim (sys.metadata fs dst) [ ok m ↦ Metadata.is_dir m | err _ ↦ false ]

module _ {R F : Type 0} (sys : FileSystem F) where
  -- What `unpack_dir` does about an error: a directory that is there already is as good.
  unfoldable pub dir_there : Bytes → Error → M (World R F) (Unit {0})
  dir_there dst e = do
    there ← read (λ w. is_dir_at sys dst w.fs)
    if is_already_exists e && there then return tt else fail (when creating_dir e)

  unfoldable pub unpack_dir : Bytes → M (World R F) (Unit {0})
  unfolding dir_there run
  unpack_dir dst = or_else (run sys (create_dir dst)) (dir_there dst)

  unfoldable pub unpack_as_dir : EntryFields → Bytes → M (World R F) Unpacked
  unfolding unpack_dir set_perms_ownerships
  unpack_as_dir e dst = do
    unpack_dir dst
    set_perms_ownerships sys dst none e.header e.settings
    return nonexhaustive

  -- The source of a hard link: inside the directory that is unpacked to, if there is one.
  unfoldable pub link_source : Option Bytes → Bytes → M (World R F) Bytes
  unfolding validate_inside_dst push
  link_source none src = return src
  link_source (some p) src = do validate_inside_dst sys p (push p src); return (push p src)

  -- A symlink, and once more in place of what stands there.
  unfoldable pub make_symlink : Bytes → Bytes → Bool → M (World R F) (Unit {0})
  unfolding run
  make_symlink src dst overwrite = or_else (run sys (symlink src dst)) (λ e.
      if is_already_exists e && overwrite
      then (do run sys (remove_file dst); run sys (symlink src dst))
      else fail e)

  abbrev pub times : (Bytes → ℤ → Call) → EntryFields → Bytes → M (World R F) (Unit {0})
  times set e dst =
      if e.settings.preserve_mtime
      then (elim (get_mtime e.header) [
        | some t ↦ wrap setting_times (run sys (set dst t))
        | none ↦ return tt
      ])
      else return tt

  unfoldable pub unpack_symlink : EntryFields → Bytes → Bytes → M (World R F) (Unit {0})
  unfolding make_symlink get_mtime
  unpack_symlink e src dst = do
    wrap symlinking (make_symlink src dst e.settings.overwrite)
    times set_symlink_times e dst

  unfoldable pub unpack_hard_link : Option Bytes → Bytes → Bytes → M (World R F) (Unit {0})
  unfolding link_source run
  unpack_hard_link target_base src dst = do
    link_src ← link_source target_base src
    wrap hard_linking (run sys (hard_link link_src dst))

  unfoldable pub unpack_link : EntryFields → Option Bytes → Bytes → M (World R F) Unpacked
  unfolding link_name unpack_hard_link unpack_symlink
  unpack_link e target_base dst = do
    src ← from (link_name e)
    if is_hard_link (entry_type e.header)
        then unpack_hard_link target_base src dst
        else unpack_symlink e src dst
    return nonexhaustive

  -- The file that is written: a new one, in place of what stands there.
  unfoldable pub reopen : Bytes → M (World R F) ℕ
  unfolding run calling
  reopen dst = do
    or_else (run sys (remove_file dst)) (λ e. if is_not_found e then return tt else fail e)
    calling sys (create_new dst)

  unfoldable pub open_file : Bytes → Bool → M (World R F) ℕ
  unfolding reopen
  open_file dst overwrite =
      or_else (calling sys (create_new dst)) (λ e.
        if not (is_already_exists e) then fail e else if overwrite then reopen dst else fail e)

module _ {R F : Type 0} (io : AsyncRead R) (sys : FileSystem F) (chunk : ℕ) (room : ℕ → ℕ) where
  -- `io::copy` from a stretch of the archive, by way of a buffer of `chunk` bytes, with the number
  -- of bytes copied.
  unfoldable pub copy_loop : ℕ → ℕ → ℕ → ℕ → M (World R F) ℕ
  unfolding poll_read run
  copy_loop zero fd limit total w = (w, out_of_fuel)
  copy_loop (suc fuel) fd zero total w = (w, Outcome.ready (ok total))
  copy_loop (suc fuel) fd (suc limit) total w =
      after
        (λ filled. elim filled [
          | [] ↦ return total
          | b ∷ bytes ↦ do
            run sys (write fd (b ∷ bytes))
            copy_loop fuel fd (suc limit - length (b ∷ bytes)) (total + length (b ∷ bytes))
        ])
        (on_cursor (on_inner io (poll_read io (min (suc limit) chunk))) w)

  -- One stretch of the entry; a hole is skipped and the file reaches to its end.
  unfoldable pub write_stretch : ℕ → ℕ → EntryIo → M (World R F) (Unit {0})
  unfolding copy_loop calling run as_i64
  write_stretch fuel fd (data_of expected) = do
    copied ← copy_loop fuel fd expected 0
    if copied == expected then return tt else fail (other partial_write)
  write_stretch fuel fd (pad hole) = do
    size ← calling sys (seek_by fd (as_i64 hole))
    run sys (set_len fd size)

  unfoldable pub write_stretches : ℕ → ℕ → List EntryIo → M (World R F) (Unit {0})
  unfolding write_stretch
  write_stretches fuel fd [] = return tt
  write_stretches fuel fd (s ∷ stretches) = do
    write_stretch fuel fd s
    write_stretches fuel fd stretches

  -- `self.data.drain(..)`: the stretches are gone also where an error stops the loop.
  unfoldable pub drained : M (World R F) (List EntryIo)
  drained w =
      (record w { cursor = record w.cursor { io_data = [] } }, Outcome.ready (ok w.cursor.io_data))

  unfoldable pub unpack_file : ℕ → EntryFields → Bytes → M (World R F) Unpacked
  unfolding open_file drained write_stretches set_perms_ownerships set_xattrs
  unpack_file fuel e dst = do
    fd ← open_file sys dst e.settings.overwrite
    stretches ← drained
    write_stretches fuel fd stretches
    times sys set_times e dst
    set_perms_ownerships sys dst (some fd) e.header e.settings
    if e.settings.unpack_xattrs then set_xattrs io sys room fuel e dst else return tt
    return (file fd)

  -- An old header's name that ends in a slash is a directory's.
  unfoldable pub is_old_dir : EntryFields → Bool
  unfolding path_bytes ends_with_slash
  is_old_dir e = elim (as_ustar e.header) [
    | some ustar ↦ false
    | none ↦ ends_with_slash (path_bytes e)
  ]

  -- `EntryFields::unpack`
  unfoldable pub unpack : ℕ → EntryFields → Option Bytes → Bytes → M (World R F) Unpacked
  unfolding unpack_as_dir unpack_link unpack_file is_old_dir
  unpack fuel e target_base dst =
      let kind = entry_type e.header in
      if is_dir kind
      then unpack_as_dir sys e dst
      else if is_hard_link kind || is_symlink kind
      then unpack_link sys e target_base dst
      else if is_pax_global_extensions kind
          || is_pax_local_extensions kind
          || is_gnu_longname kind
          || is_gnu_longlink kind
      then return nonexhaustive
      else if is_old_dir e
      then unpack_as_dir sys e dst
      else unpack_file fuel e dst
