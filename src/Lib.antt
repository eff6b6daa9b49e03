-- ===== src/Lib.antt =====
-- async-tar: reading and writing tar archives (`src/`, with the feature "tokio" on unix).
--
-- The writer `Builder` appends members, each a header of 512 bytes, its data and zeros up to a
-- whole block. The reader `Archive` gives a stream of entries: it skips to the next header, checks
-- its checksum, and hands out an entry that reads its data from the same reader. Members that
-- describe the member behind them (GNU long names and links, PAX records) are taken in between,
-- and GNU sparse members get a list of stretches.
--
-- The builder also takes paths and files of the system, and the archive unpacks to a directory; both
-- go through a file system that the caller of the model supplies.
--
-- Files:
--   Base           bytes, tests and lists over native numbers, byte slots, signed numbers, errors
--                  and results (`src/error.rs`, `other` of `src/lib.rs`)
--   Poll           the outcome of a poll (ready, pending, a panic) and steps on a state; Poll/Ends
--                  follows the steps that do not run out of rounds
--   Text           UTF-8 decoding, trimming, numbers to and from text, and unix paths (what the
--                  code uses of the standard library): Text/Paths has the components, `parent`,
--                  `join` and comparison, Strip `strip_prefix`; Join and Parents are about names
--                  joined by slashes
--   Codec          `src/header.rs`: `octal_from`, `octal_into`, `num_field_wrapper_*`,
--                  `numeric_extended_*`, `truncate`, `copy_into`; Codec/Octal, Codec/Numeric and
--                  Codec/Names are about what a field gives back
--   EntryType      `src/entry_type.rs`
--   Header         `src/header.rs`: Layout has the fields as offsets in the 512 bytes, Fields the
--                  accessors, Formats those of owner, group and device, Checksum the checksum,
--                  Paths `set_path`, `set_link_name` and `copy_path_into`, Metadata `fill_from`;
--                  Laws, ChecksumLaws, Sealed, Setters and Owner are about accessors and setters,
--                  PathLaws, PathLimits, PathKeeps, PathOutcomes, SetPath, LinkName, UstarPath and
--                  UstarSplit about paths, Filled, MetadataLaws and Described about metadata
--   Pax            `src/pax.rs`, with Pax/Records on well-formed records
--   Archive        `src/archive.rs`: Inner is `ArchiveInner`, Entries is `poll_skip` and
--                  `poll_next_entry_raw`, Sparse is `poll_parse_sparse_header`, Next is
--                  `poll_next_entry` and `poll_next`, Options the setters of `Archive`; Stream, Raw,
--                  Member and Plain follow one member through them, Sealed headers that the writer
--                  completed, Overrun a long skip, Seek two headers where the archive seeks, Split
--                  a block in two reads, Fused the end, Stretches and SparseLaws the sparse members
--   Entry          `src/entry.rs`: Fields has the entry and its names, Read the reading of its
--                  data, Options the accessors and setters; Whole is about `poll_read_all`
--   Unpack         `src/entry.rs` and `_unpack` of `src/archive.rs`: System is the file system,
--                  Inside `validate_inside_dst` and `ensure_dir_created`, Owner ownerships,
--                  permissions, times and extended attributes, File `unpack`, Place `unpack_in` and
--                  `_unpack`; Keeps, Frame, Safety, Within and Archives carry predicates on the
--                  file system through them, Checked traces the calls, Refused is about what is not
--                  unpacked, Content, Spread and Written about what a file holds
--   Builder        `src/builder.rs`: Append has `append`, `finish` and `into_inner`, Prepare the
--                  header of a long name, Names `append_data`, `append_link`, `append_fs` and
--                  `append_special`, Files the operations on paths and the directory walk, Methods
--                  the methods of `Builder` for them; Layout, LongPath, Stored and Special are
--                  about the bytes that are written, Termination and Walk about the walk's end
--   RoundTrip      the writer and the reader together: RoundTrip/Archives for whole archives,
--                  RoundTrip/Files a file, RoundTrip/LongNames a long name with its member, and
--                  RoundTrip/LongPaths `append_data` with a long path
--   Tests, ArchiveTests, DescribedTests, PathTests, FilesTests, UnpackTests,
--   ContentTests   runs at concrete inputs
--
-- State is passed explicitly: a computation takes the state and gives the new one with an outcome.
-- What an early return leaves changed stays changed. The reader and the writer under the archive
-- are parameters (`AsyncRead`, `AsyncWrite`), as are the room that a vector gets when it grows, the
-- size of the buffer of `io::copy`, the file system that is unpacked to (`FileSystem`: a step for
-- each call, and what metadata and canonical paths it answers with) and the files that are archived
-- (`SourceTree`). A path is its bytes. Numbers of type u64 are numbers of the library with the
-- wrap-around or the overflow check written out; where the code uses plain `+` and `-`, an overflow
-- is a panic. The casts to i64 of a hole and of a time are written out too (`as_i64`). A single
-- task polls, so the locks in the archive are free whenever they are tried.
--
-- Fuel: the skip loop takes a byte at least in each round, so the distance is fuel enough for it,
-- and each parent of a path is shorter, so its length is enough for the loops over ancestors. The
-- loops over zero blocks, extension headers, describing members, reads, entries, copies and the
-- directories of a walk take a number of rounds as a parameter, and running out is an outcome of
-- its own; the theorems that an operation succeeds say how many rounds are enough.
--
-- Not modelled: Debug output, the views of a header as another type (casts of the same bytes), the
-- lossy texts inside error messages, and the variants for Windows, wasm32 and async-std. On unix
-- the conversions between paths and bytes never fail, so they are left out. An extended attribute
-- is set as with the feature "xattr".
pub mod Base
pub mod Text
pub mod Codec
pub mod EntryType
pub mod Header
pub mod Pax
pub mod Poll
pub mod Archive
pub mod Entry
pub mod Builder
pub mod Unpack
pub mod RoundTrip
pub mod Tests
pub mod ArchiveTests
pub mod DescribedTests
pub mod UnpackTests
pub mod PathTests
pub mod FilesTests
pub mod ContentTests
