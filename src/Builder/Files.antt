-- ===== src/Builder/Files.antt =====
-- src/builder.rs: members made of what stands in a file system.
use async_tar_rs.Base.{
  ℕ, zero, suc, Bool, true, false, not, ◌&&◌, ◌||◌, Option, none, some, List, [], ◌∷◌, Bytes,
  if◌then◌else◌,
}
use async_tar_rs.Base.Result.{Result, ok, err, getting_metadata}
use async_tar_rs.Poll.{Outcome, panicked, out_of_fuel, M, ◌>>=◌, ◌>>◌, return, from, wrap, after}
use async_tar_rs.Text.Paths.{dot, push, path_eq}
use async_tar_rs.Text.Paths.Strip.{strip_prefix}
use async_tar_rs.Header.{new_gnu}
use async_tar_rs.Header.Metadata.{HeaderMode, Metadata, is_file, is_dir, is_symlink}
use async_tar_rs.Builder.Append.{AsyncWrite, Source}
use async_tar_rs.Builder.Names.{Draft, nothing, append_fs, append_special}

-- What `fs::File` gives: its metadata, and the bytes that are read from it.
pub record OpenFile : Type 0 where
  pub stat : Result Metadata
  pub source : Source

pub record FileType : Type 0 where
  pub is_dir : Bool
  pub is_symlink : Bool

pub record DirEntry : Type 0 where
  pub path : Bytes
  pub file_type : Result FileType

-- The file system that is read, which is the system's and not under src/; it does not change while
-- it is read. A directory is the list of what `next_entry` gives.
pub record SourceTree : Type 0 where
  pub metadata : Bytes → Result Metadata
  pub symlink_metadata : Bytes → Result Metadata
  pub open_file : Bytes → Result OpenFile
  pub read_link : Bytes → Result Bytes
  pub read_dir : Bytes → Result (List (Result DirEntry))

-- What is still to be visited.
pub record Visit : Type 0 where
  pub src : Bytes
  pub is_dir : Bool
  pub is_symlink : Bool

-- The inner loop: the entries of a directory go on the stack, the last one on top.
unfoldable pub push_entries : List (Result DirEntry) → List Visit → Result (List Visit)
push_entries [] stack = ok stack
push_entries (err e ∷ entries) stack = err e
push_entries (ok entry ∷ entries) stack = elim entry.file_type [
  | err e ↦ err e
  | ok t ↦
      push_entries entries
        (record { src = entry.path; is_dir = t.is_dir; is_symlink = t.is_symlink } ∷ stack)
]

-- `Path::is_dir`
unfoldable pub is_dir_at : SourceTree → Bytes → Bool
is_dir_at tree path = elim (tree.metadata path) [ ok m ↦ is_dir m | err e ↦ false ]

module _ {W : Type 0} (io : AsyncWrite W) (tree : SourceTree) where
  -- `append_fs` makes its header, and `append_special` too.
  unfoldable pub on_own : M (Draft W) (Unit {0}) → M W (Unit {0})
  on_own m w = (
    (m (record { dst = w; header = new_gnu })).0.dst,
    (m (record { dst = w; header = new_gnu })).1,
  )

  abbrev pub write_fs : Bytes → Metadata → Source → HeaderMode → Option Bytes → M W (Unit {0})
  write_fs path meta src mode link_name = on_own (append_fs io path meta src mode link_name)

  -- `append_file`
  unfoldable pub append_file : Bytes → OpenFile → HeaderMode → M W (Unit {0})
  unfolding on_own
  append_file path file mode = do stat ← from file.stat; write_fs path stat file.source mode none

  -- `append_dir`
  unfoldable pub append_dir : Bytes → Bytes → HeaderMode → M W (Unit {0})
  unfolding on_own
  append_dir path src_path mode = do
    stat ← from (tree.metadata src_path)
    write_fs path stat nothing mode none

  unfoldable pub append_link_at : Bytes → Bytes → Metadata → HeaderMode → M W (Unit {0})
  unfolding on_own
  append_link_at src dest stat mode = do
    link_name ← from (tree.read_link src)
    write_fs dest stat nothing mode (some link_name)

  abbrev pub ar_name : Bytes → Option Bytes → Bytes
  ar_name path none = path
  ar_name path (some name) = name

  -- The branches of `append_path_with_name` for what stands at `path`; the last one passes `path`
  -- on where the others pass the name.
  unfoldable pub append_stat : Bytes → Option Bytes → HeaderMode → Metadata → M W (Unit {0})
  unfolding on_own append_link_at
  append_stat path name mode stat =
      if is_file stat
      then (do
        file ← from (tree.open_file path)
        write_fs (ar_name path name) stat file.source mode none)
      else if is_dir stat
      then write_fs (ar_name path name) stat nothing mode none
      else if is_symlink stat
      then append_link_at path (ar_name path name) stat mode
      else on_own (append_special io path stat mode)

  -- `append_path_with_name`
  unfoldable pub append_path_with_name : Bytes → Option Bytes → HeaderMode → Bool → M W (Unit {0})
  unfolding append_stat
  append_path_with_name path name mode follow = do
    stat ←
        wrap getting_metadata
          (from (if follow then tree.metadata path else tree.symlink_metadata path))
    append_stat path name mode stat

  -- One round of `append_dir_all` for a directory: its entries, and the directory itself.
  unfoldable pub visit_dir : Bytes → Bytes → HeaderMode → List Visit → M W (List Visit)
  unfolding push_entries append_dir path_eq
  visit_dir src dest mode stack = do
    readdir ← from (tree.read_dir src)
    stack' ← from (push_entries readdir stack)
    if not (path_eq dest []) && not (path_eq dest dot) then append_dir dest src mode else return tt
    return stack'

  -- The round for what is neither a directory nor a link that is kept.
  unfoldable pub visit_file : Bytes → Bytes → HeaderMode → M W (Unit {0})
  unfolding on_own append_file
  visit_file src dest mode = do
    stat ← from (tree.metadata src)
    if not (is_file stat)
        then on_own (append_special io dest stat mode)
        else (do file ← from (tree.open_file src); append_file dest file mode)

  unfoldable pub visit_link : Bytes → Bytes → HeaderMode → M W (Unit {0})
  unfolding append_link_at
  visit_link src dest mode = do
    stat ← from (tree.symlink_metadata src)
    append_link_at src dest stat mode

  -- One round, with the stack that it leaves; `dest` is where the visit goes in the archive.
  unfoldable pub visit_at : Bytes → HeaderMode → Bool → Visit → List Visit → M W (List Visit)
  unfolding visit_dir visit_link visit_file is_dir_at
  visit_at dest mode follow v stack =
      if v.is_dir || (v.is_symlink && follow && is_dir_at tree v.src)
      then visit_dir v.src dest mode stack
      else (do
        if not follow && v.is_symlink
            then visit_link v.src dest mode
            else visit_file v.src dest mode
        return stack)

  unfoldable pub visit : Bytes → Bytes → HeaderMode → Bool → Visit → List Visit → M W (List Visit)
  unfolding visit_at strip_prefix push
  visit path src_path mode follow v stack = elim (strip_prefix v.src src_path) [
    | none ↦ λ w. (w, panicked)
    | some rest ↦ visit_at (push path rest) mode follow v stack
  ]

  -- The loop of `append_dir_all`, with the stack.
  unfoldable pub visit_all : ℕ → Bytes → Bytes → HeaderMode → Bool → List Visit → M W (Unit {0})
  unfolding visit
  visit_all fuel path src_path mode follow [] w = (w, Outcome.ready (ok tt))
  visit_all zero path src_path mode follow (v ∷ stack) w = (w, out_of_fuel)
  visit_all (suc fuel) path src_path mode follow (v ∷ stack) w =
      after (visit_all fuel path src_path mode follow) (visit path src_path mode follow v stack w)

  -- `append_dir_all`
  unfoldable pub append_dir_all : ℕ → Bytes → Bytes → HeaderMode → Bool → M W (Unit {0})
  unfolding visit_all
  append_dir_all fuel path src_path mode follow =
      visit_all fuel path src_path mode follow
        (record { src = src_path; is_dir = true; is_symlink = false } ∷ [])
