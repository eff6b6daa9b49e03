-- ===== src/Unpack.antt =====
-- Unpacking entries to a file system: src/entry.rs and src/archive.rs, on unix.
pub mod System
pub mod Inside
pub mod Owner
pub mod File
pub mod Place
pub mod Keeps
pub mod Frame
pub mod Safety
pub mod Within
pub mod Archives
pub mod Checked
pub mod Refused
pub mod Content
pub mod Spread
pub mod Written
