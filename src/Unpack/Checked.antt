-- ===== src/Unpack/Checked.antt =====
-- src/entry.rs and src/archive.rs: the calls that unpacking makes, with the checks in front of them.
use async_tar_rs.Base.{ℕ, ◌≡◌, refl, ◌⊎◌, inl, inr, false, Option, none, some, List, [], ◌∷◌, Bytes}
use async_tar_rs.Base.Result.{Result, ok, err}
use async_tar_rs.Poll.{M, ◌>>=◌, from, read, after_from}
use async_tar_rs.Text.Paths.{parent}
use async_tar_rs.Header.Metadata.{Metadata}
use async_tar_rs.Archive.Inner.{AsyncRead, ArchiveInner}
use async_tar_rs.Archive.Entries.{entries}
use async_tar_rs.Entry.Fields.{EntryFields}
use async_tar_rs.Entry.Read.{Cursor}
use async_tar_rs.Unpack.System.{Call, create_dir_all, FileSystem, World}
use async_tar_rs.Unpack.Place.{
  Site, unpack_in, make_missing, make_dst, canonical_dst, unpack_all, archive_unpack,
}
use async_tar_rs.Unpack.Frame.{target, IsAt}
use async_tar_rs.Unpack.Within.{IsInside, IsGuarded, unpack_in_keeps}
use async_tar_rs.Unpack.Archives.{unpack_all_keeps}

-- Calls with the file systems that they were made on, the last one first.
abbrev pub Trace : Type 0 → Type 0
Trace F = List (Call × F)

-- A file system that keeps the trace of its calls.
unfoldable pub traced : {F : Type 0} → FileSystem F → FileSystem (Trace F × F)
traced sys = record {
  call = λ c t. (((c, t.1) ∷ t.0, (sys.call c t.1).0), (sys.call c t.1).1);
  metadata = λ t p. sys.metadata t.1 p;
  symlink_metadata = λ t p. sys.symlink_metadata t.1 p;
  canonicalize = λ t p. sys.canonicalize t.1 p;
}

module _ {F : Type 0} (sys : FileSystem F) (top : Option Bytes) (dst : Bytes) where
  -- On one of the file systems of the trace, `up` was `dst` or under it, links followed.
  abbrev pub WasInside : Bytes → Trace F → Type 0
  WasInside up [] = ⊥
  WasInside up ((c, fs) ∷ log) = IsInside sys dst up fs ⊎ WasInside up log

  -- A call is on an open file; or it makes the directory that the caller named; or it is on a path
  -- whose parent was inside `dst`, or it makes a directory without a parent, the root.
  abbrev pub IsAllowed : Call → Trace F → Type 0
  IsAllowed c log =
      (target c ≡ none)
      ⊎ ((p : Bytes) × (top ≡ some p) × (c ≡ create_dir_all p))
      ⊎ ((p : Bytes) × (up : Bytes) × (target c ≡ some p) × (parent p ≡ some up) × WasInside up log)
      ⊎ ((p : Bytes) × (c ≡ create_dir_all p) × (parent p ≡ none))

  -- Each call was allowed when it was made.
  abbrev pub IsChecked : Trace F → Type 0
  IsChecked [] = Unit {0}
  IsChecked ((c, fs) ∷ log) = IsAllowed c ((c, fs) ∷ log) × IsChecked log

  abbrev Kept : Trace F × F → Type 0
  Kept t = IsChecked t.0

  -- The parent of the entry's place was inside, on the file system as it is or as it was.
  abbrev Entered : Bytes → Trace F × F → Type 0
  Entered p t =
      IsChecked t.0
      × ((up : Bytes) × (parent p ≡ some up) × (IsInside sys dst up t.1 ⊎ WasInside up t.0))

  IsInside-now :
      {up : Bytes} {t : Trace F × F} → IsInside (traced sys) dst up t → IsInside sys dst up t.1
  unfolding traced
  IsInside-now i = record {
    real = i.real;
    base = i.base;
    real_is = i.real_is;
    base_is = i.base_is;
    under = i.under;
  }

  Entered-call :
      (p : Bytes) (c : Call) (t : Trace F × F)
      → IsAt p c
      → Entered p t
      → Entered p ((traced sys).call c t).0
  unfolding traced
  Entered-call p c t (inl open_file) (checked, (up, below, inside)) =
      ((inl open_file, checked), (up, below, inr inside))
  Entered-call p c t (inr at) (checked, (up, below, inside)) =
      ((inr (inr (inl (p, up, at, below, inside))), checked), (up, below, inr inside))

  traced-IsGuarded : IsGuarded (traced sys) dst Kept Entered
  unfolding traced
  traced-IsGuarded = record {
    made_top = λ p t above checked. (inr (inr (inr (p, refl, above))), checked);
    made = λ p up t below inside checked.
        (inr (inr (inl (p, up, refl, below, inl (IsInside-now inside)))), checked);
    entered = λ p up t below inside checked. (checked, (up, below, inl (IsInside-now inside)));
    kept = λ p c t at e. Entered-call p c t at e;
    left = λ p t e. e.0;
  }

abbrev pub traced_world : {R F : Type 0} → Cursor R → F → World R (Trace F × F)
traced_world cursor fs = record { cursor = cursor; fs = ([], fs) }

abbrev pub traced_site : {R F : Type 0} → ArchiveInner R → F → Site R (Trace F × F)
traced_site archive fs = record { archive = archive; fs = ([], fs) }

module _ {R F : Type 0} (io : AsyncRead R) (sys : FileSystem F) (chunk : ℕ) (room : ℕ → ℕ)
    (fuel : ℕ) where
  -- Whatever the entry, the destination and the answers of the file system, each call that
  -- `unpack_in` makes to change it is one of: a call on an open file; a call on a path whose
  -- parent was, on a file system up to that call, the destination or under it with all links
  -- followed; or the making of a directory that has no parent.
  pub unpack_in-IsChecked :
      (e : EntryFields) (dst : Bytes) (cursor : Cursor R) (fs : F)
      → IsChecked sys none dst
          (unpack_in io (traced sys) chunk room fuel e dst (traced_world cursor fs)).0.fs.0
  unpack_in-IsChecked e dst cursor fs =
      (unpack_in_keeps (traced sys) dst (Kept sys none dst) (Entered sys none dst)
          (traced-IsGuarded sys none dst) io chunk room fuel e).keeps
        (traced_world cursor fs) tt

  make_missing-IsChecked :
      (dst real : Bytes) (archive : ArchiveInner R) (fs : F) (r : Result Metadata)
      → IsChecked sys
          (some dst)
          real
          (make_missing io (traced sys) chunk room fuel dst r (traced_site archive fs)).0.fs.0
  unfolding make_missing
  make_missing-IsChecked dst real archive fs (ok m) = tt
  make_missing-IsChecked dst real archive fs (err e) =
      unfold traced in (inr (inl (dst, refl, refl)), tt)

  make_dst-IsChecked :
      (dst real : Bytes) (archive : ArchiveInner R) (fs : F)
      → IsChecked sys
          (some dst)
          real
          (make_dst io (traced sys) chunk room fuel dst (traced_site archive fs)).0.fs.0
  unfolding make_dst
  make_dst-IsChecked dst real archive fs =
      make_missing-IsChecked dst real archive fs ((traced sys).symlink_metadata ([], fs) dst)

  -- The directory that the entries are unpacked to: the one named by the caller, made where it is
  -- missing, and with its links followed where they can be.
  abbrev pub real_dst : Bytes → ArchiveInner R → F → Bytes
  real_dst dst archive fs =
      canonical_dst io (traced sys) chunk room fuel dst
        (make_dst io (traced sys) chunk room fuel dst (traced_site archive fs)).0.fs

  -- What follows `make_dst`.
  abbrev unpack_into : ℕ → Bytes → M (Site R (Trace F × F)) (Unit {0})
  unpack_into rounds dst = do
    real ← read (λ s. canonical_dst io (traced sys) chunk room fuel dst s.fs)
    es ← λ s. from (entries false s.archive) s
    unpack_all io (traced sys) chunk room fuel rounds real es

  -- Whatever the archive, the destination and the answers of the file system, each call that
  -- `Archive::unpack` makes to change it is one of: a call on an open file; the making of the
  -- destination that the caller named; a call on a path whose parent was, on a file system up to
  -- that call, the canonical destination or under it with all links followed; or the making of a
  -- directory that has no parent.
  pub archive_unpack-IsChecked :
      (rounds : ℕ) (dst : Bytes) (archive : ArchiveInner R) (fs : F)
      → IsChecked sys
          (some dst)
          (real_dst dst archive fs)
          (archive_unpack io
            (traced sys)
            chunk
            room
            fuel
            rounds
            dst
            (traced_site archive fs)).0.fs.0
  unfolding archive_unpack
  archive_unpack-IsChecked rounds dst archive fs =
      let real = real_dst dst archive fs in
      let made = make_dst io (traced sys) chunk room fuel dst (traced_site archive fs) in
      let checked = make_dst-IsChecked dst real archive fs in
      after_from (λ s. IsChecked sys (some dst) real s.fs.0) (λ _. unpack_into rounds dst) made
        checked
        (λ _.
          after_from (λ s. IsChecked sys (some dst) real s.fs.0)
            (unpack_all io (traced sys) chunk room fuel rounds real)
            (from (entries false made.0.archive) made.0) checked
            (λ es.
              unpack_all_keeps (traced sys) real (Kept sys (some dst) real)
                (Entered sys (some dst) real) (traced-IsGuarded sys (some dst) real) io chunk room
                fuel rounds es made.0 checked))
