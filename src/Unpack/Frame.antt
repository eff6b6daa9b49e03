-- ===== src/Unpack/Frame.antt =====
-- src/entry.rs, `unpack`: the calls it makes are on the place of the entry and on the file opened there.
use async_tar_rs.Base.{
  ℕ, ◌≡◌, refl, ◌⊎◌, inl, inr, Bool, not, ◌&&◌, Option, none, some, List, [], ◌∷◌, Bytes, any, ltb,
  ◌^◌, ◌==◌,
}
use async_tar_rs.Base.Integers.{ℤ}
use async_tar_rs.Base.Result.{
  Result, ok, err, Error, other, when, is_already_exists, is_not_found, creating_dir, uid_too_large,
  gid_too_large, path_has_nul, setting_ownerships, setting_permissions, setting_xattrs,
  setting_times,
}
use async_tar_rs.Poll.{ready, return, fail, wrap}
use async_tar_rs.Header.{Header, uid, gid, mode}
use async_tar_rs.Archive.Inner.{Settings}
use async_tar_rs.Entry.Fields.{EntryFields}
use async_tar_rs.Unpack.System.{
  Call, create_dir, create_dir_all, remove_file, create_new, hard_link, symlink, write, seek_by,
  set_len, set_times, set_symlink_times, set_permissions, set_file_permissions, lchown, fchown,
  set_xattr, FileSystem, calling, run,
}
use async_tar_rs.Unpack.Keeps.{
  Keeps, keeps_bind, keeps_then, keeps_read, keeps_if, keeps_same, keeps_or_else, keeps_wrap,
}
use async_tar_rs.Unpack.Owner.{
  own, set_ownerships, set_perms, set_perms_ownerships, permissions, set_each_xattr, get_mtime,
}
use async_tar_rs.Unpack.File.{
  nonexhaustive, is_dir_at, unpack_dir, dir_there, unpack_as_dir, make_symlink, times, reopen,
  open_file,
}

-- The path that a call makes, changes or removes; none for the calls on an open file.
abbrev pub target : Call → Option Bytes
target (create_dir p) = some p
target (create_dir_all p) = some p
target (remove_file p) = some p
target (create_new p) = some p
target (hard_link src dst) = some dst
target (symlink src dst) = some dst
target (write fd bytes) = none
target (seek_by fd n) = none
target (set_len fd n) = none
target (set_times p t) = some p
target (set_symlink_times p t) = some p
target (set_permissions p m) = some p
target (set_file_permissions fd m) = none
target (lchown p u g) = some p
target (fchown fd u g) = none
target (set_xattr p k v) = some p

-- Calls on a path, or on an open file.
abbrev pub IsAt : Bytes → Call → Type 0
IsAt dst c = (target c ≡ none) ⊎ (target c ≡ some dst)

-- What the calls at a place leave true of the file system.
abbrev pub KeptAt : {F : Type 0} → FileSystem F → (F → Type 0) → Bytes → Type 0
KeptAt {F} sys P dst = (c : Call) (fs : F) → IsAt dst c → P fs → P (sys.call c fs).0

module _ (R : Type 0) {F : Type 0} (sys : FileSystem F) (P : F → Type 0) (dst : Bytes)
    (kept : KeptAt sys P dst) where
  pub run_keeps : (c : Call) → IsAt dst c → Keeps {R = R} P (run sys c)
  unfolding run
  run_keeps c at = record { keeps = λ w p. kept c w.fs at p }

  pub calling_keeps : (c : Call) → IsAt dst c → Keeps {R = R} P (calling sys c)
  unfolding calling
  calling_keeps c at = record { keeps = λ w p. kept c w.fs at p }

  abbrev pub done : Keeps {R = R} P (return tt)
  done = keeps_same P (ready (ok tt))

  abbrev pub failed : {A : Type 0} (e : Error) → Keeps {R = R} {A = A} P (fail e)
  failed e = keeps_same P (ready (err e))

  pub unpack_dir_keeps : Keeps {R = R} P (unpack_dir sys dst)
  unfolding unpack_dir dir_there
  unpack_dir_keeps = keeps_or_else P (run_keeps (create_dir dst) (inr refl)) (λ e.
      keeps_bind P (keeps_read P (λ w. is_dir_at sys dst w.fs))
        (λ there. keeps_if P (is_already_exists e && there) done (failed (when creating_dir e))))

  pub make_symlink_keeps :
      (src : Bytes) (overwrite : Bool) → Keeps {R = R} P (make_symlink sys src dst overwrite)
  unfolding make_symlink
  make_symlink_keeps src overwrite = keeps_or_else P (run_keeps (symlink src dst) (inr refl)) (λ e.
      keeps_if P (is_already_exists e && overwrite)
        (keeps_then P (run_keeps (remove_file dst) (inr refl))
          (run_keeps (symlink src dst) (inr refl)))
        (failed e))

  reopen_keeps : Keeps {R = R} P (reopen sys dst)
  unfolding reopen
  reopen_keeps =
      keeps_then P
        (keeps_or_else P (run_keeps (remove_file dst) (inr refl))
          (λ e. keeps_if P (is_not_found e) done (failed e)))
        (calling_keeps (create_new dst) (inr refl))

  pub open_file_keeps : (overwrite : Bool) → Keeps {R = R} P (open_file sys dst overwrite)
  unfolding open_file
  open_file_keeps overwrite = keeps_or_else P (calling_keeps (create_new dst) (inr refl)) (λ e.
      keeps_if P (not (is_already_exists e)) (failed e)
        (keeps_if P overwrite reopen_keeps (failed e)))

  pub set_ownerships_keeps :
      (f : Option ℕ) (u g : ℕ) → Keeps {R = R} P (set_ownerships sys dst f u g)
  unfolding set_ownerships
  set_ownerships_keeps (some fd) u g =
      keeps_then P (keeps_if P (ltb u (2 ^ 32)) done (failed (other uid_too_large))) (
        keeps_then P (keeps_if P (ltb g (2 ^ 32)) done (failed (other gid_too_large)))
          (run_keeps (fchown fd u g) (inl refl)))
  set_ownerships_keeps none u g =
      keeps_then P (keeps_if P (ltb u (2 ^ 32)) done (failed (other uid_too_large))) (
        keeps_then P (keeps_if P (ltb g (2 ^ 32)) done (failed (other gid_too_large))) (
          keeps_if P (any (λ b. b == 0) dst) (failed (other path_has_nul))
            (run_keeps (lchown dst u g) (inr refl))))

  set_perms_keeps :
      (f : Option ℕ) (m mask : ℕ) (preserve : Bool)
      → Keeps {R = R} P (set_perms sys dst f m mask preserve)
  unfolding set_perms
  set_perms_keeps none m mask preserve =
      run_keeps (set_permissions dst (permissions m mask preserve)) (inr refl)
  set_perms_keeps (some fd) m mask preserve =
      run_keeps (set_file_permissions fd (permissions m mask preserve)) (inl refl)

  mode_keeps :
      (f : Option ℕ) (s : Settings) (m : Result ℕ)
      → Keeps {R = R} P (elim m [
        | ok m ↦ wrap setting_permissions (set_perms sys dst f m s.mask s.preserve_permissions)
        | err e ↦ return tt
      ])
  mode_keeps f s (ok m) =
      keeps_wrap P setting_permissions (set_perms_keeps f m s.mask s.preserve_permissions)
  mode_keeps f s (err e) = done

  pub set_perms_ownerships_keeps :
      (f : Option ℕ) (h : Header) (s : Settings)
      → Keeps {R = R} P (set_perms_ownerships sys dst f h s)
  unfolding set_perms_ownerships own
  set_perms_ownerships_keeps f h s =
      keeps_then P
        (keeps_if P s.preserve_ownerships
          (keeps_bind P (keeps_same P (ready (uid h))) (λ u.
            keeps_bind P (keeps_same P (ready (gid h)))
              (λ g. keeps_wrap P setting_ownerships (set_ownerships_keeps f u g))))
          done)
        (mode_keeps f s (mode h))

  pub times_keeps :
      (set : Bytes → ℤ → Call)
      → ((t : ℤ) → IsAt dst (set dst t))
      → (e : EntryFields) → Keeps {R = R} P (times sys set e dst)
  times_keeps set at e = keeps_if P e.settings.preserve_mtime (set_time (get_mtime e.header)) done
    where
      set_time :
          (t : Option ℤ)
          → Keeps {R = R} P
              (elim t [ some t ↦ wrap setting_times (run sys (set dst t)) | none ↦ return tt ])
      set_time (some t) = keeps_wrap P setting_times (run_keeps (set dst t) (at t))
      set_time none = done

  pub set_each_xattr_keeps :
      (exts : List (Bytes × Bytes)) → Keeps {R = R} P (set_each_xattr sys dst exts)
  unfolding set_each_xattr
  set_each_xattr_keeps [] = done
  set_each_xattr_keeps ((key, value) ∷ exts) =
      keeps_then P (keeps_wrap P setting_xattrs (run_keeps (set_xattr dst key value) (inr refl)))
        (set_each_xattr_keeps exts)

  pub unpack_as_dir_keeps : (e : EntryFields) → Keeps {R = R} P (unpack_as_dir sys e dst)
  unfolding unpack_as_dir
  unpack_as_dir_keeps e = keeps_then P unpack_dir_keeps (
      keeps_then P (set_perms_ownerships_keeps none e.header e.settings)
        (keeps_same P (ready (ok nonexhaustive))))
