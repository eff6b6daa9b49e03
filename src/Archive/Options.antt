-- ===== src/Archive/Options.antt =====
-- src/archive.rs: what a client sets before it reads, and the reader it gets back.
use async_tar_rs.Base.{ℕ, Bool}
use async_tar_rs.Archive.Inner.{ArchiveInner, Settings}

abbrev on_settings : {R : Type 0} → (Settings → Settings) → ArchiveInner R → ArchiveInner R
on_settings f a = record a { settings = f a.settings }

abbrev pub set_mask : {R : Type 0} → ℕ → ArchiveInner R → ArchiveInner R
set_mask mask a = on_settings (λ s. record s { mask = mask }) a

abbrev pub set_unpack_xattrs : {R : Type 0} → Bool → ArchiveInner R → ArchiveInner R
set_unpack_xattrs unpack_xattrs a = on_settings (λ s. record s { unpack_xattrs = unpack_xattrs }) a

abbrev pub set_preserve_permissions : {R : Type 0} → Bool → ArchiveInner R → ArchiveInner R
set_preserve_permissions preserve a =
    on_settings (λ s. record s { preserve_permissions = preserve }) a

abbrev pub set_preserve_ownerships : {R : Type 0} → Bool → ArchiveInner R → ArchiveInner R
set_preserve_ownerships preserve a =
    on_settings (λ s. record s { preserve_ownerships = preserve }) a

abbrev pub set_overwrite : {R : Type 0} → Bool → ArchiveInner R → ArchiveInner R
set_overwrite overwrite a = on_settings (λ s. record s { overwrite = overwrite }) a

abbrev pub set_preserve_mtime : {R : Type 0} → Bool → ArchiveInner R → ArchiveInner R
set_preserve_mtime preserve a = on_settings (λ s. record s { preserve_mtime = preserve }) a

abbrev pub into_inner : {R : Type 0} → ArchiveInner R → R
into_inner a = a.obj
