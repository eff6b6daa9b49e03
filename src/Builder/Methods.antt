-- ===== src/Builder/Methods.antt =====
-- src/builder.rs: the methods of `Builder` for paths and files, which pass its mode and its choice
-- about links on.
use async_tar_rs.Base.{ℕ, none, some, Bytes}
use async_tar_rs.Poll.{M}
use async_tar_rs.Builder.Append.{AsyncWrite, Builder, on_obj}
use async_tar_rs.Builder.Files.{
  OpenFile, SourceTree, append_path_with_name, append_file, append_dir, append_dir_all,
}

module _ {W : Type 0} (io : AsyncWrite W) (tree : SourceTree) where
  -- `Builder::append_path`
  unfoldable pub builder_append_path : Bytes → M (Builder W) (Unit {0})
  builder_append_path path b = on_obj io (append_path_with_name io tree path none b.mode b.follow) b

  -- `Builder::append_path_with_name`
  unfoldable pub builder_append_path_with_name : Bytes → Bytes → M (Builder W) (Unit {0})
  builder_append_path_with_name path name b =
      on_obj io (append_path_with_name io tree path (some name) b.mode b.follow) b

  -- `Builder::append_file`
  unfoldable pub builder_append_file : Bytes → OpenFile → M (Builder W) (Unit {0})
  builder_append_file path file b = on_obj io (append_file io tree path file b.mode) b

  -- `Builder::append_dir`
  unfoldable pub builder_append_dir : Bytes → Bytes → M (Builder W) (Unit {0})
  builder_append_dir path src_path b = on_obj io (append_dir io tree path src_path b.mode) b

  -- `Builder::append_dir_all`
  unfoldable pub builder_append_dir_all : ℕ → Bytes → Bytes → M (Builder W) (Unit {0})
  builder_append_dir_all fuel path src_path b =
      on_obj io (append_dir_all io tree fuel path src_path b.mode b.follow) b
