-- ===== src/Entry/Options.antt =====
-- src/entry.rs: what `Entry` tells of its fields, and what a client sets before it unpacks.
use async_tar_rs.Base.{ℕ, Bool}
use async_tar_rs.Header.{Header}
use async_tar_rs.Archive.Inner.{Settings}
use async_tar_rs.Entry.Fields.{EntryFields}

abbrev pub header : EntryFields → Header
header e = e.header

abbrev pub size : EntryFields → ℕ
size e = e.size

abbrev pub raw_header_position : EntryFields → ℕ
raw_header_position e = e.header_pos

abbrev pub raw_file_position : EntryFields → ℕ
raw_file_position e = e.file_pos

abbrev on_settings : (Settings → Settings) → EntryFields → EntryFields
on_settings f e = record e { settings = f e.settings }

abbrev pub set_mask : ℕ → EntryFields → EntryFields
set_mask mask e = on_settings (λ s. record s { mask = mask }) e

abbrev pub set_unpack_xattrs : Bool → EntryFields → EntryFields
set_unpack_xattrs unpack_xattrs e = on_settings (λ s. record s { unpack_xattrs = unpack_xattrs }) e

abbrev pub set_preserve_permissions : Bool → EntryFields → EntryFields
set_preserve_permissions preserve e =
    on_settings (λ s. record s { preserve_permissions = preserve }) e

abbrev pub set_preserve_mtime : Bool → EntryFields → EntryFields
set_preserve_mtime preserve e = on_settings (λ s. record s { preserve_mtime = preserve }) e
