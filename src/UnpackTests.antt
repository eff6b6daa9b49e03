-- ===== src/UnpackTests.antt =====
-- Unpacking at concrete entries, on a file system that knows which paths are there.
use async_tar_rs.Base.{
  ℕ, ◌≡◌, refl, true, false, none, some, List, [], ◌∷◌, ◌++◌, Bytes, any, take, drop, replicate,
  if◌then◌else◌,
}
use async_tar_rs.Base.Integers
use async_tar_rs.Base.Integers.{as_i64}
use async_tar_rs.Base.Slots.{bytes_eq, overlay, splice, slice}
use async_tar_rs.Base.Result.{Result, ok, err, io_error}
use async_tar_rs.Poll.{ready}
use async_tar_rs.Text.Numbers.{digits, format_radix, from_str_radix, read_digits}
use async_tar_rs.Text.Utf8.{from_utf8, trim, trim_start}
use async_tar_rs.Text.Paths.{components, split}
use async_tar_rs.Codec.{
  octal_into, octal_from, truncate, num_field_wrapper_into, num_field_wrapper_from,
}
use async_tar_rs.EntryType
use async_tar_rs.Header.{
  new_gnu, set_entry_type, entry_type, mode, mtime, is_ustar, as_ustar, set_mtime, get, put, update,
}
use async_tar_rs.Header.Metadata.{Metadata}
use async_tar_rs.Header.Sealed.{sealed}
use async_tar_rs.Archive.Inner
use async_tar_rs.Archive.Inner.{Settings, ArchiveInner, poll_read}
use async_tar_rs.Archive.Stream.{byte_slice, opened}
use async_tar_rs.Builder.Layout.{member}
use async_tar_rs.Entry.Fields.{EntryFields, data_of, path_bytes, without_nul}
use async_tar_rs.Entry.Read.{Cursor}
use async_tar_rs.Unpack.System.{
  Call, create_dir, create_dir_all, create_new, hard_link, write, set_times, FileSystem, World,
}
use async_tar_rs.Unpack.File.{unpack}
use async_tar_rs.Unpack.Place.{unpack_in, archive_unpack}
use async_tar_rs.Unpack.Checked.{
  traced, traced_world, traced_site, IsChecked, real_dst, unpack_in-IsChecked,
  archive_unpack-IsChecked,
}
use async_tar_rs.Unpack.Refused.{
  is_parent_dir, IsLinkedInside, unpack_in-parent_dir, unpack-hard_link,
}

abbrev settings : Settings
settings = (Inner.new {R = Bytes} []).settings

-- The paths that are there.
abbrev Disk : Type 0
Disk = List Bytes

abbrev call_on : Call → Disk → Disk × Result ℕ
call_on (create_dir p) fs = (p ∷ fs, ok 0)
call_on (create_dir_all p) fs = (p ∷ fs, ok 0)
call_on (create_new p) fs = (p ∷ fs, ok 3)
call_on (hard_link src p) fs = (p ∷ fs, ok 0)
call_on other fs = (fs, ok 0)

abbrev directory : Metadata
directory = record { mtime = 0; uid = 0; gid = 0; mode = 0o40755; len = 0; rdev = 0 }

abbrev stat_of : Disk → Bytes → Result Metadata
stat_of fs p = if any (bytes_eq p) fs then ok directory else err (io_error 2)

-- No link leads anywhere else.
abbrev disk : FileSystem Disk
disk = record {
  call = call_on;
  metadata = stat_of;
  symlink_metadata = stat_of;
  canonicalize = λ fs p. if any (bytes_eq p) fs then ok p else err (io_error 2);
}

-- `/d`
abbrev dst : Bytes
dst = b'/' ∷ b'd' ∷ []

-- `a/b`
abbrev path : Bytes
path = b'a' ∷ b'/' ∷ b'b' ∷ []

abbrev file : Bytes
file = b'/' ∷ b'd' ∷ b'/' ∷ b'a' ∷ b'/' ∷ b'b' ∷ []

abbrev parent : Bytes
parent = b'/' ∷ b'd' ∷ b'/' ∷ b'a' ∷ []

abbrev entry : EntryFields
entry = record {
  long_pathname = some path;
  long_linkname = none;
  pax_extensions = none;
  settings = settings;
  header = new_gnu;
  size = 2;
  header_pos = 0;
  file_pos = 512;
  io_data = data_of 2 ∷ [];
  read_state = none;
}

abbrev cursor : Cursor Bytes
cursor = record {
  inner = opened settings 0 (b'h' ∷ b'i' ∷ []);
  io_data = data_of 2 ∷ [];
  read_state = none;
}

abbrev fs0 : Disk
fs0 = dst ∷ []

-- The parent is made, and then the file with its data and its time.
unpack_in_calls :
    unpack_in byte_slice (traced disk) 8192 (λ len. 32) 10 entry dst (traced_world cursor fs0) ≡ (
      record {
        cursor = record { inner = opened settings 2 []; io_data = []; read_state = none };
        fs = (
          (set_times file (Integers.pos 1), file ∷ parent ∷ fs0)
              ∷ (write 3 (b'h' ∷ b'i' ∷ []), file ∷ parent ∷ fs0)
              ∷ (create_new file, parent ∷ fs0)
              ∷ (create_dir_all parent, fs0)
              ∷ [],
          file ∷ parent ∷ fs0,
        );
      },
      ready (ok true),
    )
unfolding unpack_in as_i64 without_nul split traced take drop EntryType.is_dir
    EntryType.is_hard_link EntryType.is_symlink EntryType.is_pax_global_extensions
    EntryType.is_pax_local_extensions EntryType.is_gnu_longname EntryType.is_gnu_longlink
    EntryType.new entry_type mode mtime get slice put new_gnu update splice set_mtime replicate
    overlay num_field_wrapper_into num_field_wrapper_from octal_into octal_from truncate
    format_radix digits from_utf8 trim trim_start from_str_radix read_digits is_ustar as_ustar
    poll_read Inner.new
unpack_in_calls = refl

unpack_in-IsChecked_example :
    IsChecked disk none dst
      (unpack_in byte_slice
        (traced disk)
        8192
        (λ len. 32)
        10
        entry
        dst
        (traced_world cursor fs0)).0.fs.0
unpack_in-IsChecked_example =
    unpack_in-IsChecked byte_slice disk 8192 (λ len. 32) 10 entry dst cursor fs0

-- An archive of one member, to be unpacked to a directory that is missing.
abbrev one_member : ArchiveInner Bytes
one_member = opened settings 0 (member (sealed 2 new_gnu) (b'h' ∷ b'i' ∷ []) ++ replicate 1024 0)

archive_unpack-IsChecked_example :
    IsChecked disk
      (some dst)
      (real_dst byte_slice disk 8192 (λ len. 32) 10 dst one_member [])
      (archive_unpack byte_slice
        (traced disk)
        8192
        (λ len. 32)
        10
        3
        dst
        (traced_site one_member [])).0.fs.0
archive_unpack-IsChecked_example =
    archive_unpack-IsChecked byte_slice disk 8192 (λ len. 32) 10 3 dst one_member []

-- `../x`
abbrev above : EntryFields
above = record entry { long_pathname = some (b'.' ∷ b'.' ∷ b'/' ∷ b'x' ∷ []) }

abbrev world : World Bytes Disk
world = record { cursor = cursor; fs = fs0 }

goes_up : any is_parent_dir (components (path_bytes above)) ≡ true
unfolding components path_bytes without_nul split
goes_up = refl

unpack_in-parent_dir_example :
    unpack_in byte_slice disk 8192 (λ len. 32) 10 above dst world ≡ (world, ready (ok false))
unpack_in-parent_dir_example =
    unpack_in-parent_dir byte_slice disk 8192 (λ len. 32) 10 above dst world goes_up

-- `l`, a hard link to `x`.
abbrev link_entry : EntryFields
link_entry = record entry {
  header = set_entry_type EntryType.link new_gnu;
  long_linkname = some (b'x' ∷ []);
}

is_link : EntryType.is_hard_link (entry_type link_entry.header) ≡ true
unfolding EntryType.is_hard_link entry_type set_entry_type EntryType.new EntryType.as_byte new_gnu
    get put update set_mtime slice splice take drop replicate num_field_wrapper_into octal_into
    format_radix digits overlay
is_link = refl

unpack-hard_link_example :
    IsLinkedInside byte_slice disk 8192
      (λ len. 32)
      10
      link_entry
      dst
      file
      world
      (unpack byte_slice disk 8192 (λ len. 32) 10 link_entry (some dst) file world)
unpack-hard_link_example =
    unpack-hard_link byte_slice disk 8192 (λ len. 32) 10 link_entry dst file world is_link
