-- ===== src/Unpack/Safety.antt =====
-- src/entry.rs, `unpack` and `unpack_in`: what holds of the file system whatever an entry says.
use async_tar_rs.Base.{
  ℕ, zero, suc, ◌-◌, ◌+◌, refl, inl, inr, not, ◌&&◌, ◌||◌, Option, none, some, List, [], ◌∷◌, Bytes,
  length, min, ◌==◌,
}
use async_tar_rs.Base.Integers.{as_i64}
use async_tar_rs.Base.Result.{
  ok, err, other, when, partial_write, hard_linking, symlinking, unpacking_outside,
  invalid_argument,
}
use async_tar_rs.Poll.{ready, out_of_fuel, ◌>>◌, return}
use async_tar_rs.Text.Paths.{push, starts_with}
use async_tar_rs.EntryType.{
  is_dir, is_hard_link, is_symlink, is_pax_global_extensions, is_pax_local_extensions,
  is_gnu_longname, is_gnu_longlink,
}
use async_tar_rs.Header.{entry_type}
use async_tar_rs.Archive.Inner.{AsyncRead, poll_read}
use async_tar_rs.Pax.{extensions}
use async_tar_rs.Entry.Fields.{EntryFields, EntryIo, pad, data_of}
use async_tar_rs.Entry.Read.{poll_read_all, on_inner}
use async_tar_rs.Unpack.System.{
  hard_link, write, seek_by, set_len, set_times, set_symlink_times, FileSystem, run,
}
use async_tar_rs.Unpack.Keeps.{
  Keeps, keeps_bind, keeps_then, keeps_if, keeps_same, keeps_or_else, keeps_wrap, keeps_cursor,
}
use async_tar_rs.Unpack.Inside.{validate_inside_dst, canonical}
use async_tar_rs.Unpack.Owner.{set_xattrs, xattrs_of, set_each_xattr, pax_extensions, pax_or_data}
use async_tar_rs.Unpack.File.{
  nonexhaustive, file, link_source, unpack_symlink, unpack_hard_link, link_name, unpack_link,
  copy_loop, write_stretch, write_stretches, drained, unpack_file, is_old_dir, unpack,
}
use async_tar_rs.Unpack.Frame.{
  KeptAt, run_keeps, calling_keeps, done, failed, make_symlink_keeps, open_file_keeps,
  set_perms_ownerships_keeps, times_keeps, set_each_xattr_keeps, unpack_as_dir_keeps,
}

module _ (R : Type 0) {F : Type 0} (sys : FileSystem F) (P : F → Type 0) where
  canonical_keeps : (p : Bytes) → Keeps {R = R} P (canonical sys p)
  canonical_keeps p = record { keeps = λ w h. h }

  pub validate_keeps : (dst p : Bytes) → Keeps {R = R} P (validate_inside_dst sys dst p)
  unfolding validate_inside_dst
  validate_keeps dst p = keeps_bind P (canonical_keeps p) (λ real.
      keeps_bind P (canonical_keeps dst) (λ base.
        keeps_if P (starts_with real base) (keeps_same P (ready (ok base)))
          (keeps_same P (ready (err (when unpacking_outside (other invalid_argument)))))))

  link_source_keeps :
      (base : Option Bytes) (src : Bytes) → Keeps {R = R} P (link_source sys base src)
  unfolding link_source
  link_source_keeps none src = keeps_same P (ready (ok src))
  link_source_keeps (some p) src =
      keeps_then P (validate_keeps p (push p src)) (keeps_same P (ready (ok (push p src))))

module _ {R F : Type 0} (io : AsyncRead R) (sys : FileSystem F) (chunk : ℕ) (room : ℕ → ℕ)
    (P : F → Type 0) (dst : Bytes) (kept : KeptAt sys P dst) where
  copy_loop_keeps :
      (fuel fd limit total : ℕ) → Keeps P (copy_loop io sys chunk room fuel fd limit total)
  unfolding copy_loop
  copy_loop_keeps zero fd limit total = keeps_same P out_of_fuel
  copy_loop_keeps (suc fuel) fd zero total = keeps_same P (ready (ok total))
  copy_loop_keeps (suc fuel) fd (suc limit) total =
      keeps_bind P (keeps_cursor P (on_inner io (poll_read io (min (suc limit) chunk)))) (
        rest
          (λ filled. copy_loop_keeps fuel fd (suc limit - length filled) (total + length filled)))
    where
      rest :
          ((filled : Bytes)
            → Keeps P (
                copy_loop io sys chunk room fuel fd
                  (suc limit - length filled)
                  (total + length filled)))
          → (filled : Bytes)
          → Keeps {R = R} P (elim filled [
            | [] ↦ return total
            | b ∷ bytes ↦ do
              run sys (write fd (b ∷ bytes))
              copy_loop io sys chunk room fuel fd
                  (suc limit - length (b ∷ bytes))
                  (total + length (b ∷ bytes))
          ])
      rest further [] = keeps_same P (ready (ok total))
      rest further (b ∷ bytes) =
          keeps_then P (run_keeps R sys P dst kept (write fd (b ∷ bytes)) (inl refl))
            (further (b ∷ bytes))

  write_stretch_keeps :
      (fuel fd : ℕ) (s : EntryIo) → Keeps P (write_stretch io sys chunk room fuel fd s)
  unfolding write_stretch
  write_stretch_keeps fuel fd (data_of expected) =
      keeps_bind P (copy_loop_keeps fuel fd expected 0) (λ copied.
        keeps_if P (copied == expected) (done R sys P dst kept)
          (failed R sys P dst kept (other partial_write)))
  write_stretch_keeps fuel fd (pad hole) =
      keeps_bind P (calling_keeps R sys P dst kept (seek_by fd (as_i64 hole)) (inl refl))
        (λ size. run_keeps R sys P dst kept (set_len fd size) (inl refl))

  write_stretches_keeps :
      (fuel fd : ℕ) (ss : List EntryIo) → Keeps P (write_stretches io sys chunk room fuel fd ss)
  unfolding write_stretches
  write_stretches_keeps fuel fd [] = done R sys P dst kept
  write_stretches_keeps fuel fd (s ∷ ss) =
      keeps_then P (write_stretch_keeps fuel fd s) (write_stretches_keeps fuel fd ss)

  pax_or_data_keeps :
      (fuel : ℕ) (pax : Option Bytes) (e : EntryFields)
      → Keeps P (pax_or_data io sys room fuel pax e)
  unfolding pax_or_data
  pax_or_data_keeps fuel (some pax) e = keeps_same P (ready (ok (some pax)))
  pax_or_data_keeps fuel none e =
      keeps_if P
        (not (is_pax_global_extensions (entry_type e.header))
          && not (is_pax_local_extensions (entry_type e.header)))
        (keeps_same P (ready (ok none)))
        (keeps_bind P (keeps_cursor P (poll_read_all io room fuel))
          (λ pax. keeps_same P (ready (ok (some pax)))))

  set_xattrs_keeps : (fuel : ℕ) (e : EntryFields) → Keeps P (set_xattrs io sys room fuel e dst)
  unfolding set_xattrs pax_extensions
  set_xattrs_keeps fuel e =
      keeps_bind P
        (keeps_or_else P (pax_or_data_keeps fuel e.pax_extensions e)
          (λ _. keeps_same P (ready (ok none))))
        each
    where
      each :
          (exts : Option Bytes)
          → Keeps {R = R} P (elim exts [
            | some pax ↦ set_each_xattr sys dst (xattrs_of (extensions pax))
            | none ↦ return tt
          ])
      each (some pax) = set_each_xattr_keeps R sys P dst kept (xattrs_of (extensions pax))
      each none = done R sys P dst kept

  unpack_file_keeps :
      (fuel : ℕ) (e : EntryFields) → Keeps P (unpack_file io sys chunk room fuel e dst)
  unfolding unpack_file
  unpack_file_keeps fuel e =
      keeps_bind P (open_file_keeps R sys P dst kept e.settings.overwrite) (λ fd.
        keeps_bind P drained_keeps (λ stretches.
          keeps_then P (write_stretches_keeps fuel fd stretches) (
            keeps_then P (times_keeps R sys P dst kept set_times (λ t. inr refl) e) (
              keeps_then P
                (set_perms_ownerships_keeps R sys P dst kept (some fd) e.header e.settings)
                (keeps_then P
                  (keeps_if P e.settings.unpack_xattrs (set_xattrs_keeps fuel e)
                    (done R sys P dst kept))
                  (keeps_same P (ready (ok (file fd)))))))))
    where
      drained_keeps : Keeps P (drained io sys chunk room)
      drained_keeps = unfold drained in record { keeps = λ w p. p }

  unpack_link_keeps :
      (e : EntryFields) (base : Option Bytes) → Keeps {R = R} P (unpack_link sys e base dst)
  unfolding unpack_link unpack_hard_link unpack_symlink
  unpack_link_keeps e base = keeps_bind P (keeps_same P (ready (link_name e))) (λ src.
      keeps_then P
        (keeps_if P (is_hard_link (entry_type e.header))
          (keeps_bind P (link_source_keeps R sys P base src) (λ link_src.
            keeps_wrap P hard_linking
              (run_keeps R sys P dst kept (hard_link link_src dst) (inr refl))))
          (keeps_then P
            (keeps_wrap P symlinking (make_symlink_keeps R sys P dst kept src e.settings.overwrite))
            (times_keeps R sys P dst kept set_symlink_times (λ t. inr refl) e)))
        (keeps_same P (ready (ok nonexhaustive))))

  pub unpack_keeps :
      (fuel : ℕ) (e : EntryFields) (base : Option Bytes)
      → Keeps P (unpack io sys chunk room fuel e base dst)
  unfolding unpack
  unpack_keeps fuel e base =
      let kind = entry_type e.header in
      keeps_if P (is_dir kind) (unpack_as_dir_keeps R sys P dst kept e) (
        keeps_if P (is_hard_link kind || is_symlink kind) (unpack_link_keeps e base) (
          keeps_if P
            (is_pax_global_extensions kind
              || is_pax_local_extensions kind
              || is_gnu_longname kind
              || is_gnu_longlink kind)
            (keeps_same P (ready (ok nonexhaustive)))
            (keeps_if P (is_old_dir io sys chunk room e) (unpack_as_dir_keeps R sys P dst kept e)
              (unpack_file_keeps fuel e))))
