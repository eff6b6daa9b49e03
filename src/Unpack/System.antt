-- ===== src/Unpack/System.antt =====
-- The file system that the code unpacks to, which is the system's and not under src/.
use async_tar_rs.Base.{ℕ, Bytes}
use async_tar_rs.Base.Integers.{ℤ}
use async_tar_rs.Base.Result.{Result, map_ok}
use async_tar_rs.Poll.{ready, M}
use async_tar_rs.Header.Metadata.{Metadata}
use async_tar_rs.Entry.Read.{Cursor}

-- The system calls that the code makes to change something. The number in place of a path is that
-- of an open file.
pub data Call : Type 0 where
  create_dir create_dir_all remove_file create_new : Bytes → Call
  hard_link symlink : Bytes → Bytes → Call
  write : ℕ → Bytes → Call
  seek_by : ℕ → ℤ → Call
  set_len : ℕ → ℕ → Call
  set_times set_symlink_times : Bytes → ℤ → Call
  set_permissions : Bytes → ℕ → Call
  set_file_permissions : ℕ → ℕ → Call
  lchown : Bytes → ℕ → ℕ → Call
  fchown : ℕ → ℕ → ℕ → Call
  set_xattr : Bytes → Bytes → Bytes → Call

-- `create_new` gives an open file and `seek_by` the new offset; the answers of the other calls are
-- not used.
pub record FileSystem (F : Type 0) : Type 0 where
  pub call : Call → F → F × Result ℕ
  pub metadata : F → Bytes → Result Metadata
  pub symlink_metadata : F → Bytes → Result Metadata
  pub canonicalize : F → Bytes → Result Bytes

-- The entry's reader and the file system.
pub record World (R F : Type 0) : Type 0 where
  pub cursor : Cursor R
  pub fs : F

module _ {R F : Type 0} (sys : FileSystem F) where
  unfoldable pub calling : Call → M (World R F) ℕ
  calling c w = (record w { fs = (sys.call c w.fs).0 }, ready (sys.call c w.fs).1)

  -- A call whose answer is not used.
  unfoldable pub run : Call → M (World R F) (Unit {0})
  run c w = (record w { fs = (sys.call c w.fs).0 }, ready (map_ok (λ _. tt) (sys.call c w.fs).1))

-- A computation on the reader of the entry.
abbrev pub on_cursor : {R F A : Type 0} → M (Cursor R) A → M (World R F) A
on_cursor m w = (record w { cursor = (m w.cursor).0 }, (m w.cursor).1)
