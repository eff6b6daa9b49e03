-- ===== src/Unpack/Within.antt =====
-- src/entry.rs, `unpack_in`: what is made is made under the directory that is unpacked to.
use async_tar_rs.Base.{
  ℕ, suc, ◌≡◌, refl, sym, subst, ◌⊎◌, inl, inr, Bool, true, false, Option, none, some, List, [],
  ◌∷◌, Bytes, length, reverse, Bool-cases, if◌then◌else◌,
}
use async_tar_rs.Base.Result.{
  ok, err, Result-cases, Error, when, other, creating, unpacking, unpacking_outside,
  invalid_argument, canonicalizing,
}
use async_tar_rs.Poll.{Outcome, ready, M, ◌>>=◌, ◌>>◌, return, wrap, after, after_keeps}
use async_tar_rs.Text.Paths.{components, parent, path_eq, starts_with}
use async_tar_rs.Archive.Inner.{AsyncRead}
use async_tar_rs.Entry.Fields.{EntryFields, path_bytes}
use async_tar_rs.Unpack.System.{create_dir_all, FileSystem, World, run}
use async_tar_rs.Unpack.Keeps.{
  Keeps, keeps_bind, keeps_if, keeps_then, keeps_read, keeps_same, keeps_wrap,
}
use async_tar_rs.Unpack.Inside.{
  validate_inside_dst, validate_parent, create_dirs, ensure_dir_created, missing,
}
use async_tar_rs.Unpack.File.{unpack}
use async_tar_rs.Unpack.Place.{place, unpack_at, unpack_in}
use async_tar_rs.Unpack.Frame.{KeptAt}
use async_tar_rs.Unpack.Safety.{unpack_keeps}

-- As the file system is, `p` is `dst` or under it, both with their links followed.
pub record IsInside {F : Type 0} (sys : FileSystem F) (dst p : Bytes) (fs : F) : Type 0 where
  pub real : Bytes
  pub base : Bytes
  pub real_is : sys.canonicalize fs p ≡ ok real
  pub base_is : sys.canonicalize fs dst ≡ ok base
  pub under : starts_with real base ≡ true

-- A predicate on the file system that directories made inside `dst` keep, and that becomes `Q` at
-- the place `file_dst`, once its parent is inside `dst`; the calls on that place keep `Q`.
pub record IsGuarded {F : Type 0} (sys : FileSystem F) (dst : Bytes) (P : F → Type 0)
    (Q : Bytes → F → Type 0) : Type 0 where
  pub made_top :
      (p : Bytes) (fs : F) → parent p ≡ none → P fs → P (sys.call (create_dir_all p) fs).0
  pub made :
      (p up : Bytes) (fs : F)
      → parent p ≡ some up
      → IsInside sys dst up fs
      → P fs
      → P (sys.call (create_dir_all p) fs).0
  pub entered :
      (p up : Bytes) (fs : F) → parent p ≡ some up → IsInside sys dst up fs → P fs → Q p fs
  pub kept : (p : Bytes) → KeptAt sys (Q p) p
  pub left : (p : Bytes) (fs : F) → Q p fs → P fs

-- A validation changes nothing; it gives the real directory or an error.
pub validate_cases :
    {R F : Type 0} (sys : FileSystem F) (dst p : Bytes) (w : World R F)
    → ((base : Bytes) × IsInside sys dst p w.fs
        × (validate_inside_dst sys dst p w ≡ (w, ready (ok base))))
      ⊎ ((e : Error) × (validate_inside_dst sys dst p w ≡ (w, ready (err e))))
validate_cases sys dst p w = elim (Result-cases (sys.canonicalize w.fs p)) [
  | inr (e, bad) ↦ inr (when canonicalizing e, unfold validate_inside_dst in rw bad refl)
  | inl (real, real_is) ↦ elim (Result-cases (sys.canonicalize w.fs dst)) [
    | inr (e, bad) ↦
        inr (when canonicalizing e, unfold validate_inside_dst in rw (real_is, bad) refl)
    | inl (base, base_is) ↦ elim (Bool-cases (starts_with real base)) [
      | inr outside ↦ inr (
        when unpacking_outside (other invalid_argument),
        unfold validate_inside_dst in rw (real_is, base_is, outside) refl,
      )
      | inl under ↦ inl (
        base,
        record { real = real; base = base; real_is = real_is; base_is = base_is; under = under },
        unfold validate_inside_dst in rw (real_is, base_is, under) refl,
      )
    ]
  ]
]

module _ {R F : Type 0} (sys : FileSystem F) (P : F → Type 0) where
  -- What follows a validation goes on where the path is inside.
  after_validated :
      {A : Type 0} (dst p : Bytes) (f : Bytes → M (World R F) A) (w : World R F)
      → P w.fs
      → ((base : Bytes) → IsInside sys dst p w.fs → P (f base w).0.fs)
      → P (after f (validate_inside_dst sys dst p w)).0.fs
  after_validated dst p f w h next = elim (validate_cases sys dst p w) [
    | inl (base, inside, same) ↦
        subst (λ (x : World R F × Outcome Bytes). P (after f x).0.fs) (sym same) (next base inside)
    | inr (e, same) ↦ subst (λ (x : World R F × Outcome Bytes). P (after f x).0.fs) (sym same) h
  ]

module _ {R F : Type 0} (sys : FileSystem F) (dst : Bytes) (P : F → Type 0) (Q : Bytes → F → Type 0)
    (guarded : IsGuarded sys dst P Q) where
  -- The guard in front of `create_dir_all`, the call, and what follows.
  make_keeps :
      {k : M (World R F) (Unit {0})} (p : Bytes) (o : Option Bytes)
      → parent p ≡ o
      → Keeps P k
      → Keeps P (validate_parent sys dst o >> (run sys (create_dir_all p) >> k))
  unfolding validate_parent run
  make_keeps {k} p none top hk = record {
    keeps = λ w h.
        after_keeps (λ w'. P w'.fs) (λ _. k) (run sys (create_dir_all p) w)
          (guarded.made_top p w.fs top h) (λ a s q. hk.keeps s q);
  }
  make_keeps {k} p (some up) below hk = record {
    keeps = λ w h. elim (validate_cases sys dst up w) [
      | inr (e, same) ↦ rw same h
      | inl (base, inside, same) ↦ rw same (
          after_keeps (λ w'. P w'.fs) (λ _. k) (run sys (create_dir_all p) w)
            (guarded.made p up w.fs below inside h) (λ a s q. hk.keeps s q))
    ];
  }

  create_dirs_keeps : (dirs : List Bytes) → Keeps {R = R} P (create_dirs sys dst dirs)
  unfolding create_dirs
  create_dirs_keeps [] = keeps_same P (ready (ok tt))
  create_dirs_keeps (p ∷ dirs) = make_keeps p (parent p) refl (create_dirs_keeps dirs)

  ensure_dir_created_keeps : (dir : Bytes) → Keeps {R = R} P (ensure_dir_created sys dst dir)
  unfolding ensure_dir_created
  ensure_dir_created_keeps dir =
      keeps_bind P (keeps_read P (λ w. missing sys w.fs (suc (length dir)) dir))
        (λ dirs. create_dirs_keeps (reverse dirs))

  module _ (io : AsyncRead R) (chunk : ℕ) (room : ℕ → ℕ) (fuel : ℕ) (e : EntryFields) where
    abbrev unpack_into : Bytes → Bytes → M (World R F) Bool
    unpack_into file_dst base =
        wrap unpacking (unpack io sys chunk room fuel e (some base) file_dst) >> return true

    unpack_into_keeps : (file_dst base : Bytes) → Keeps (Q file_dst) (unpack_into file_dst base)
    unpack_into_keeps file_dst base =
        keeps_then (Q file_dst)
          (keeps_wrap (Q file_dst) unpacking (
            unpack_keeps io sys chunk room (Q file_dst) file_dst (guarded.kept file_dst) fuel e
              (some base)))
          (keeps_same (Q file_dst) (ready (ok true)))

    -- What follows the directories: the check, and the entry.
    abbrev unpack_checked : Bytes → Bytes → M (World R F) Bool
    unpack_checked file_dst up = validate_inside_dst sys dst up >>= unpack_into file_dst

    unpack_checked_keeps :
        (file_dst up : Bytes) → parent file_dst ≡ some up → Keeps P (unpack_checked file_dst up)
    unpack_checked_keeps file_dst up below = record {
      keeps = λ w h. after_validated sys P dst up (unpack_into file_dst) w h (λ base inside.
          guarded.left file_dst (unpack_into file_dst base w).0.fs (
            (unpack_into_keeps file_dst base).keeps w
              (guarded.entered file_dst up w.fs below inside h)));
    }

    unpack_at_keeps :
        (file_dst up : Bytes)
        → parent file_dst ≡ some up
        → Keeps P (unpack_at io sys chunk room fuel e dst file_dst up)
    unfolding unpack_at
    unpack_at_keeps file_dst up below =
        keeps_then P {k = unpack_checked file_dst up}
          (keeps_wrap P creating (ensure_dir_created_keeps up))
          (unpack_checked_keeps file_dst up below)

    pub unpack_in_keeps : Keeps P (unpack_in io sys chunk room fuel e dst)
    unfolding unpack_in
    unpack_in_keeps = placed (place dst (components (path_bytes e)))
      where
        under :
            (file_dst : Bytes) (o : Option Bytes)
            → parent file_dst ≡ o
            → Keeps {R = R} P (elim o [
              | none ↦ return false
              | some up ↦ unpack_at io sys chunk room fuel e dst file_dst up
            ])
        under file_dst none top = keeps_same P (ready (ok false))
        under file_dst (some up) below = unpack_at_keeps file_dst up below

        placed :
            (o : Option Bytes)
            → Keeps {R = R} P (elim o [
              | none ↦ return false
              | some file_dst ↦
                  if path_eq dst file_dst then return true else elim (parent file_dst) [
                    | none ↦ return false
                    | some up ↦ unpack_at io sys chunk room fuel e dst file_dst up
                  ]
            ])
        placed none = keeps_same P (ready (ok false))
        placed (some file_dst) =
            keeps_if P (path_eq dst file_dst) (keeps_same P (ready (ok true)))
              (under file_dst (parent file_dst) refl)
