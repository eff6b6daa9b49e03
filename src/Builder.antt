-- ===== src/Builder.antt =====
-- src/builder.rs: writing an archive.
pub mod Prepare
pub mod Names
pub mod LongPath
pub mod Append
pub mod Layout
pub mod Files
pub mod Methods
pub mod Termination
pub mod Walk
pub mod Stored
pub mod Special
