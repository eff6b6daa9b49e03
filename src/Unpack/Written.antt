-- ===== src/Unpack/Written.antt =====
-- src/entry.rs, `unpack`: a file that is made, written and described.
use async_tar_rs.Base.{
  arith, ℕ, ◌+◌, ◌^◌, ◌==◌, if◌then◌else◌, ◌<◌, ◌≡◌, refl, ◌⊎◌, inl, inr, false, Bool-cases, Option,
  none, some, List, [], ◌++◌, ◌∙◌, ap, Bytes, length,
}
use async_tar_rs.Base.Integers.{ℤ, as_i64}
use async_tar_rs.Base.Result.{Result, ok, Result-cases}
use async_tar_rs.Poll.{ready, M, after, return, ◌>>◌, ◌>>=◌}
use async_tar_rs.EntryType.{
  regular, gnu_sparse, is_dir, is_hard_link, is_symlink, is_pax_global_extensions,
  is_pax_local_extensions, is_gnu_longname, is_gnu_longlink,
}
use async_tar_rs.Header.{Header, entry_type, mode, mtime}
use async_tar_rs.Archive.Inner.{AsyncRead, Settings}
use async_tar_rs.Archive.Stream.{IsSlice, opened}
use async_tar_rs.Archive.Stretches.{total, from_archive}
use async_tar_rs.Entry.Fields.{EntryFields, EntryIo}
use async_tar_rs.Unpack.System.{
  create_new, set_times, set_file_permissions, FileSystem, World, run, calling,
}
use async_tar_rs.Unpack.Owner.{get_mtime, permissions, set_perms, set_perms_ownerships, set_xattrs}
use async_tar_rs.Unpack.File.{
  Unpacked, file, open_file, drained, times, write_stretches, unpack_file, is_old_dir, unpack,
}
use async_tar_rs.Unpack.Content.{IsFile}
use async_tar_rs.Unpack.Spread.{spread, write_stretches-spread}

-- The times and the permissions of the open file can be set, and what it holds does not change.
pub record IsDescribed {F : Type 0} (sys : FileSystem F) (dst : Bytes) (fd : ℕ)
    (At : Bytes → F → Type 0) : Type 0 where
  pub timed :
      (c : Bytes) (t : ℤ) (fs : F)
      → At c fs
      → (fs' : F) × (n : ℕ) × (sys.call (set_times dst t) fs ≡ (fs', ok n)) × At c fs'
  pub permitted :
      (c : Bytes) (m : ℕ) (fs : F)
      → At c fs
      → (fs' : F) × (n : ℕ) × (sys.call (set_file_permissions fd m) fs ≡ (fs', ok n)) × At c fs'

module _ {R F : Type 0} (sys : FileSystem F) (dst : Bytes) (fd : ℕ) (At : Bytes → F → Type 0)
    (described : IsDescribed sys dst fd At) where
  times-At :
      (e : EntryFields) (c : Bytes) (w : World R F)
      → At c w.fs
      → (fs' : F) × At c fs'
        × (times sys set_times e dst w ≡ (record w { fs = fs' }, ready (ok tt)))
  times-At e c w at = elim (Bool-cases e.settings.preserve_mtime) [
    | inr off ↦ (w.fs, at, rw off refl)
    | inl on ↦ elim (Result-cases (mtime e.header)) [
      | inr (x, bad) ↦ (w.fs, at, unfold get_mtime in rw (on, bad) refl)
      | inl (t, found) ↦
          let (fs', n, done, at') = described.timed c (as_i64 (if t == 0 then 1 else t)) w.fs at in
          (fs', at', unfold get_mtime run in rw (on, found, done) refl)
    ]
  ]

  perms-At :
      (h : Header) (s : Settings) (c : Bytes) (w : World R F)
      → s.preserve_ownerships ≡ false
      → At c w.fs
      → (fs' : F) × At c fs'
        × (set_perms_ownerships sys dst (some fd) h s w ≡ (record w { fs = fs' }, ready (ok tt)))
  perms-At h s c w off at = elim (Result-cases (mode h)) [
    | inr (x, bad) ↦ (w.fs, at, unfold set_perms_ownerships in rw (off, bad) refl)
    | inl (m, found) ↦
        let (fs', n, done, at') =
          described.permitted c (permissions m s.mask s.preserve_permissions) w.fs at in
        (fs', at', unfold set_perms_ownerships set_perms run in rw (off, found, done) refl)
  ]

-- An ordinary file and a sparse one are unpacked as a file.
unpack-unpack_file :
    {R F : Type 0} (io : AsyncRead R) (sys : FileSystem F) (chunk : ℕ) (room : ℕ → ℕ) (fuel : ℕ)
    (e : EntryFields) (base : Option Bytes) (dst : Bytes) (w : World R F)
    → (entry_type e.header ≡ regular) ⊎ (entry_type e.header ≡ gnu_sparse)
    → is_old_dir io sys chunk room e ≡ false
    → unpack io sys chunk room fuel e base dst w ≡ unpack_file io sys chunk room fuel e dst w
unfolding unpack is_dir is_hard_link is_symlink is_pax_global_extensions is_pax_local_extensions
    is_gnu_longname is_gnu_longlink
unpack-unpack_file io sys chunk room fuel e base dst w (inl kind) not_old = rw (kind, not_old) refl
unpack-unpack_file io sys chunk room fuel e base dst w (inr kind) not_old = rw (kind, not_old) refl

module _ {R F : Type 0} (io : AsyncRead R) (sys : FileSystem F) (chunk : ℕ) (room : ℕ → ℕ)
    (fuel : ℕ) (e : EntryFields) (dst : Bytes) (fd : ℕ) where
  open_file-made :
      (fs : F) (w : World R F)
      → sys.call (create_new dst) w.fs ≡ (fs, ok fd)
      → open_file sys dst e.settings.overwrite w ≡ (record w { fs = fs }, ready (ok fd))
  unfolding open_file calling
  open_file-made fs w made =
      rw made (ap (λ (x : F × Result ℕ). (record w { fs = x.0 }, ready (ok fd))) made)

  -- What follows each step of `unpack_file`.
  abbrev marked : ℕ → M (World R F) Unpacked
  marked fd' =
      (if e.settings.unpack_xattrs then set_xattrs io sys room fuel e dst else return tt)
      >> return (file fd')

  abbrev permitting : ℕ → M (World R F) Unpacked
  permitting fd' = set_perms_ownerships sys dst (some fd') e.header e.settings >> marked fd'

  abbrev timing : ℕ → M (World R F) Unpacked
  timing fd' = times sys set_times e dst >> permitting fd'

  abbrev writing : ℕ → M (World R F) Unpacked
  writing fd' =
      drained io sys chunk room
      >>= (λ stretches. write_stretches io sys chunk room fuel fd' stretches >> timing fd')

  unpack_file-steps :
      (w w1 w2 w3 w4 : World R F)
      → open_file sys dst e.settings.overwrite w ≡ (w1, ready (ok fd))
      → write_stretches io sys chunk room fuel fd w1.cursor.io_data
          (record w1 { cursor = record w1.cursor { io_data = [] } })
        ≡ (w2, ready (ok tt))
      → times sys set_times e dst w2 ≡ (w3, ready (ok tt))
      → set_perms_ownerships sys dst (some fd) e.header e.settings w3 ≡ (w4, ready (ok tt))
      → e.settings.unpack_xattrs ≡ false
      → unpack_file io sys chunk room fuel e dst w ≡ (w4, ready (ok (file fd)))
  unfolding unpack_file drained
  unpack_file-steps w w1 w2 w3 w4 made wrote timed permitted no_xattrs =
      ap (after writing) made
      ∙ ap (after (λ _. timing fd)) wrote
      ∙ ap (after (λ _. permitting fd)) timed
      ∙ ap (after (λ _. marked fd)) permitted
      ∙ ap
          (λ b.
            ((if b then set_xattrs io sys room fuel e dst else return tt) >> return (file fd)) w4)
          no_xattrs

module _ {R F : Type 0} (io : AsyncRead R) (remaining : R → Bytes) (slice : IsSlice io remaining)
    (settings : Settings) (sys : FileSystem F) (dst : Bytes) (fd : ℕ) (At : Bytes → F → Type 0)
    (Sought : Bytes → ℕ → F → Type 0) (is_file : IsFile sys fd At Sought)
    (described : IsDescribed sys dst fd At) (chunk : ℕ) (some_room : 0 < chunk) (room : ℕ → ℕ) where
  -- The entry's data is at hand.
  abbrev pub fresh : List EntryIo → ℕ → R → F → World R F
  fresh stretches pos r fs = record {
    cursor = record { inner = opened settings pos r; io_data = stretches; read_state = none };
    fs = fs;
  }

  -- `unpack` of an entry for a regular file or a GNU sparse file, at a place where a file can be
  -- made, writes all of it and answers with the open file: the file holds the data of the entry's
  -- own stretches, in order, with zeros in the holes, and the reader stands behind the data. The
  -- entry is not an old header whose name ends in a slash, and keeps neither ownerships nor
  -- extended attributes. The file is empty when it is made, and takes every write at its end,
  -- every seek forward from there and the change of length to the place that is reached, up to
  -- places of `2 ^ 63`; setting times and permissions succeeds and leaves what it holds. The
  -- stretches, holes included, come to less than `2 ^ 63` bytes. The archive has the data of the
  -- stretches at hand, the rounds exceed the data, the buffer of the copy has room, the reader
  -- fills every buffer as far as the bytes go, and the positions in the archive stay below `2 ^
  -- 64`.
  pub unpack-spread :
      (fuel : ℕ) (e : EntryFields) (base : Option Bytes) (bytes back : Bytes) (pos : ℕ) (r : R)
      (fs0 fs : F)
      → (entry_type e.header ≡ regular) ⊎ (entry_type e.header ≡ gnu_sparse)
      → is_old_dir io sys chunk room e ≡ false
      → e.settings.preserve_ownerships ≡ false
      → e.settings.unpack_xattrs ≡ false
      → sys.call (create_new dst) fs0 ≡ (fs, ok fd)
      → At [] fs
      → length bytes ≡ from_archive e.io_data
      → length bytes < fuel
      → total e.io_data < 2 ^ 63
      → remaining r ≡ bytes ++ back
      → pos + length bytes < 2 ^ 64
      → (r' : R) × (fs' : F) × (remaining r' ≡ back)
        × At (spread e.io_data bytes) fs'
        × (unpack io sys chunk room fuel e base dst (fresh e.io_data pos r fs0)
            ≡ (fresh [] (pos + length bytes) r' fs', ready (ok (file fd))))
  unpack-spread fuel e base bytes back pos r fs0 fs kind not_old not_own no_xattrs made at l f short
        laid fits =
      let (r1, fs1, e1, at1, wrote) =
        write_stretches-spread io remaining slice settings sys fd At Sought is_file chunk some_room
          room [] fuel e.io_data bytes back [] pos r fs l f (omega (arith, short)) laid fits at in
      let c = spread e.io_data bytes in
      let w1 = fresh [] (pos + length bytes) r1 fs1 in
      let (fs2, at2, timed) = times-At sys dst fd At described e c w1 at1 in
      let (fs3, at3, permitted) =
        perms-At sys dst fd At described e.header e.settings c
          (fresh [] (pos + length bytes) r1 fs2) not_own at2 in
      (
        r1,
        fs3,
        e1,
        at3,
        unpack-unpack_file io sys chunk room fuel e base dst (fresh e.io_data pos r fs0) kind
              not_old
            ∙ unpack_file-steps io sys chunk room fuel e dst fd (fresh e.io_data pos r fs0)
                (fresh e.io_data pos r fs) w1 (fresh [] (pos + length bytes) r1 fs2)
                (fresh [] (pos + length bytes) r1 fs3)
                (open_file-made io sys chunk room fuel e dst fd fs (fresh e.io_data pos r fs0) made)
                wrote timed permitted no_xattrs,
      )
