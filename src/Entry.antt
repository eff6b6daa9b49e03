-- ===== src/Entry.antt =====
-- src/entry.rs: an entry of an archive, its data, and its names.
pub mod Fields
pub mod Read
pub mod Whole
pub mod Options
