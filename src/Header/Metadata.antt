-- ===== src/Header/Metadata.antt =====
-- src/header.rs: a header filled from the metadata of a file, on unix.
use async_tar_rs.Base.{ℕ, ◌/◌, ◌%◌, ◌^◌, Bool, ◌||◌, none, some, ◌==◌, if◌then◌else◌}
use async_tar_rs.Codec.{octal_into}
use async_tar_rs.EntryType
use async_tar_rs.EntryType.{EntryType, regular, symlink, char, block, directory, fifo}
use async_tar_rs.Header.Layout.{Header, update, as_ustar, as_gnu, set_mtime, dev_major, dev_minor}
use async_tar_rs.Header.Fields.{set_size, set_mode, set_uid, set_gid, set_entry_type}

pub data HeaderMode : Type 0 where
  complete deterministic : HeaderMode

-- What `std::fs::Metadata` gives on unix, the fields of `stat`.
pub record Metadata : Type 0 where
  pub mtime : ℕ
  pub uid : ℕ
  pub gid : ℕ
  pub mode : ℕ
  pub len : ℕ
  pub rdev : ℕ

-- `mode & S_IFMT`, without its twelve bits of zeros.
abbrev pub file_format : Metadata → ℕ
file_format m = m.mode / 2 ^ 12 % 16

abbrev pub is_fifo : Metadata → Bool
is_fifo m = file_format m == 1

abbrev pub is_char_device : Metadata → Bool
is_char_device m = file_format m == 2

abbrev pub is_dir : Metadata → Bool
is_dir m = file_format m == 4

abbrev pub is_block_device : Metadata → Bool
is_block_device m = file_format m == 6

abbrev pub is_file : Metadata → Bool
is_file m = file_format m == 8

abbrev pub is_symlink : Metadata → Bool
is_symlink m = file_format m == 10

abbrev pub is_socket : Metadata → Bool
is_socket m = file_format m == 12

-- The inner function `entry_type` of `fill_platform_from`.
unfoldable pub entry_type_of : Metadata → EntryType
entry_type_of m =
    if is_file m
    then regular
    else if is_symlink m
    then symlink
    else if is_char_device m
    then char
    else if is_block_device m
    then block
    else if is_dir m
    then directory
    else if is_fifo m
    then fifo
    else EntryType.new b' '

-- The user may execute the file: `0o100 & mode == 0o100`.
abbrev pub is_executable : Metadata → Bool
is_executable m = m.mode / 2 ^ 6 % 2 == 1

unfoldable pub fill_mode : HeaderMode → Metadata → Header → Header
fill_mode complete m h = set_mode m.mode (set_gid m.gid (set_uid m.uid (set_mtime m.mtime h)))
fill_mode deterministic m h =
    set_mode (if is_dir m || is_executable m then 0o755 else 0o644)
      (set_gid 0 (set_uid 0 (set_mtime 1153704088 h)))

unfoldable pub fill_platform_from : HeaderMode → Metadata → Header → Header
unfolding fill_mode entry_type_of
fill_platform_from mode m h = set_entry_type (entry_type_of m) (fill_mode mode m h)

-- The device numbers of the two views are the same parts.
unfoldable pub clear_devices : Header → Header
clear_devices h =
    update dev_minor (λ dst. octal_into dst 0) (update dev_major (λ dst. octal_into dst 0) h)

unfoldable pub fill_from : HeaderMode → Metadata → Header → Header
unfolding fill_platform_from clear_devices
fill_from mode m h =
    let sized =
      set_size (if is_dir m || is_symlink m then 0 else m.len) (fill_platform_from mode m h) in
    let after_ustar : Header = elim (as_ustar sized) [
      | some ustar ↦ clear_devices ustar
      | none ↦ sized
    ] in
    elim (as_gnu after_ustar) [ some gnu ↦ clear_devices gnu | none ↦ after_ustar ]

-- `set_metadata` and `set_metadata_in_mode`
unfoldable pub set_metadata_in_mode : HeaderMode → Metadata → Header → Header
unfolding fill_from
set_metadata_in_mode mode m h = fill_from mode m h

unfoldable pub set_metadata : Metadata → Header → Header
unfolding fill_from
set_metadata m h = fill_from complete m h
