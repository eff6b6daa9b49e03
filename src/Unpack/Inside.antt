-- ===== src/Unpack/Inside.antt =====
-- src/entry.rs: `validate_inside_dst` and `ensure_dir_created`.
use async_tar_rs.Base.{
  ℕ, zero, suc, Option, none, some, List, [], ◌∷◌, Bytes, length, reverse, if◌then◌else◌,
}
use async_tar_rs.Base.Result.{
  ok, err, map_err, other, when, canonicalizing, unpacking_outside, invalid_argument,
}
use async_tar_rs.Poll.{Outcome, M, ◌>>=◌, ◌>>◌, return, fail, read}
use async_tar_rs.Text.Paths.{parent, starts_with}
use async_tar_rs.Unpack.System.{create_dir_all, FileSystem, World, run}

-- The directories to be made: the ancestors of a path from itself up to the first that is there. A
-- parent is shorter than its path, so that the rounds are enough where they exceed the length.
unfoldable pub missing : {F : Type 0} → FileSystem F → F → ℕ → Bytes → List Bytes
missing sys fs zero ancestor = []
missing sys fs (suc fuel) ancestor = elim (sys.symlink_metadata fs ancestor) [
  | ok m ↦ []
  | err e ↦ elim (parent ancestor) [
    | none ↦ ancestor ∷ []
    | some up ↦ ancestor ∷ missing sys fs fuel up
  ]
]

module _ {R F : Type 0} (sys : FileSystem F) where
  -- `p.canonicalize()` with its error.
  abbrev pub canonical : Bytes → M (World R F) Bytes
  canonical p w = (w, Outcome.ready (map_err (when canonicalizing) (sys.canonicalize w.fs p)))

  unfoldable pub validate_inside_dst : Bytes → Bytes → M (World R F) Bytes
  unfolding starts_with
  validate_inside_dst dst file_dst = do
    canon_parent ← canonical file_dst
    canon_target ← canonical dst
    if starts_with canon_parent canon_target
        then return canon_target
        else fail (when unpacking_outside (other invalid_argument))

  -- The guard in front of `create_dir_all`.
  unfoldable pub validate_parent : Bytes → Option Bytes → M (World R F) (Unit {0})
  unfolding validate_inside_dst
  validate_parent dst none = return tt
  validate_parent dst (some up) = do validate_inside_dst dst up; return tt

  -- The second loop of `ensure_dir_created`.
  unfoldable pub create_dirs : Bytes → List Bytes → M (World R F) (Unit {0})
  unfolding validate_parent run
  create_dirs dst [] = return tt
  create_dirs dst (ancestor ∷ ancestors) = do
    validate_parent dst (parent ancestor)
    run sys (create_dir_all ancestor)
    create_dirs dst ancestors

  unfoldable pub ensure_dir_created : Bytes → Bytes → M (World R F) (Unit {0})
  unfolding missing create_dirs
  ensure_dir_created dst dir = do
    dirs_to_create ← read (λ w. missing sys w.fs (suc (length dir)) dir)
    create_dirs dst (reverse dirs_to_create)
