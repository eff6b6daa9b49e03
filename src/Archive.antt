-- ===== src/Archive.antt =====
-- src/archive.rs: reading an archive entry by entry.
pub mod Inner
pub mod Entries
pub mod Stream
pub mod Sparse
pub mod Next
pub mod Raw
pub mod Member
pub mod Plain
pub mod Sealed
pub mod Seek
pub mod Overrun
pub mod Split
pub mod Fused
pub mod Stretches
pub mod SparseLaws
pub mod Options
