-- ===== src/Header.antt =====
-- src/header.rs: the 512 bytes of a header block and their fields.
mod Layout
mod Fields
mod Formats
mod Checksum
mod Paths
pub mod Metadata
pub mod Laws
pub mod ChecksumLaws
pub mod Sealed
pub mod Setters
pub mod Owner
pub mod PathLaws
pub mod PathLimits
pub mod PathKeeps
pub mod SetPath
pub mod UstarPath
pub mod UstarSplit
pub mod LinkName
pub mod PathOutcomes
pub mod Filled
pub mod MetadataLaws
pub mod Described
unfoldable pub use Layout.*
unfoldable pub use Fields.*
unfoldable pub use Formats.*
unfoldable pub use Checksum.*
unfoldable pub use Paths.*
