-- ===== src/Builder/Special.antt =====
-- src/builder.rs, `append_path_with_name`: special files.
use async_tar_rs.Base.{
  ◌≡◌, refl, ap, sym, ◌∙◌, Bool, false, Option, none, some, Bytes, if◌then◌else◌,
}
use async_tar_rs.Base.Result.{Result, ok, getting_metadata}
use async_tar_rs.Poll.{from, wrap, after}
use async_tar_rs.Header.Metadata.{HeaderMode, Metadata, is_file, is_dir, is_symlink}
use async_tar_rs.Builder.Append.{AsyncWrite}
use async_tar_rs.Builder.Files.{SourceTree, append_stat, append_path_with_name}

module _ {W : Type 0} (io : AsyncWrite W) (tree : SourceTree) where
  append_stat_special :
      (path : Bytes) (name other_name : Option Bytes) (mode : HeaderMode) (stat : Metadata) (w : W)
      → is_file stat ≡ false
      → is_dir stat ≡ false
      → is_symlink stat ≡ false
      → append_stat io tree path name mode stat w ≡ append_stat io tree path other_name mode stat w
  unfolding append_stat
  append_stat_special path name other_name mode stat w f d l = rw (f, d, l) refl

  found :
      (path : Bytes) (name : Option Bytes) (mode : HeaderMode) (follow : Bool) (stat : Metadata)
      (w : W)
      → (if follow then tree.metadata path else tree.symlink_metadata path) ≡ ok stat
      → append_path_with_name io tree path name mode follow w
        ≡ append_stat io tree path name mode stat w
  unfolding append_path_with_name
  found path name mode follow stat w e =
      ap
        (λ (r : Result Metadata).
          after (append_stat io tree path name mode) (wrap getting_metadata (from r) w))
        e

  -- Where what stands at the path is neither a file, a directory nor a link,
  -- `append_path_with_name` does under one name what it does under any other, and what it does
  -- without a name: the name that the caller gives is lost.
  pub append_path_with_name-special :
      (path name other_name : Bytes) (mode : HeaderMode) (follow : Bool) (stat : Metadata) (w : W)
      → (if follow then tree.metadata path else tree.symlink_metadata path) ≡ ok stat
      → is_file stat ≡ false
      → is_dir stat ≡ false
      → is_symlink stat ≡ false
      → (append_path_with_name io tree path (some name) mode follow w
          ≡ append_path_with_name io tree path (some other_name) mode follow w)
        × (append_path_with_name io tree path (some name) mode follow w
            ≡ append_path_with_name io tree path none mode follow w)
  append_path_with_name-special path name other_name mode follow stat w e f d l = (
    found path (some name) mode follow stat w e
        ∙ append_stat_special path (some name) (some other_name) mode stat w f d l
        ∙ sym (found path (some other_name) mode follow stat w e),
    found path (some name) mode follow stat w e
        ∙ append_stat_special path (some name) none mode stat w f d l
        ∙ sym (found path none mode follow stat w e),
  )
