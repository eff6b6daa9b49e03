-- ===== src/Text.antt =====
-- What the crate uses of Rust's `str` and of integer formatting: UTF-8 decoding, trimming,
-- and numbers as text. Part of the language's standard library, not of src/.
pub mod Utf8
pub mod Numbers
pub mod Paths
