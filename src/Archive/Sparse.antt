-- ===== src/Archive/Sparse.antt =====
-- GNU sparse members: the block list of the header and of the extension headers behind it.
use async_tar_rs.Base.{
  ℕ, zero, suc, ◌+◌, ◌-◌, ◌%◌, ◌^◌, Bool, ◌&&◌, ◌||◌, not, Option, none, some, List, [], ◌∷◌, ◌++◌,
  Bytes, take, drop, get_or, ltb, ◌==◌, if◌then◌else◌,
}
use async_tar_rs.Base.Slots.{slice}
use async_tar_rs.Base.Result.{
  Result, ok, err, map_err, when, other, getting_offset, getting_length, sparse_listed_not_gnu,
  sparse_unaligned, sparse_out_of_order, sparse_too_long, sparse_overrun, sparse_no_extension,
  sparse_size_mismatch, sparse_entry_mismatch,
}
use async_tar_rs.Base.Result
use async_tar_rs.Poll.{◌>>=◌, ◌>>◌, M, out_of_fuel, return, fail, from, after}
use async_tar_rs.Codec.{octal_from}
use async_tar_rs.EntryType.{is_gnu_sparse}
use async_tar_rs.Header.{Header, get, as_gnu, entry_type, real_size, is_extended, sparse_field}
use async_tar_rs.Archive.Inner.{AsyncRead, poll_try_read_all}
use async_tar_rs.Archive.Entries.{EntriesFields, on_archive, advance_next}
use async_tar_rs.Entry.Fields.{EntryIo, pad, data_of, EntryFields}

-- A `GnuSparseHeader` is 24 bytes: `offset` and `numbytes`, each of 12.
unfoldable pub block_is_empty : Bytes → Bool
block_is_empty block = get_or (slice 0 12 block) 0 0 == 0 || get_or (slice 12 12 block) 0 0 == 0

unfoldable pub block_offset : Bytes → Result ℕ
block_offset block = map_err (when getting_offset) (octal_from (slice 0 12 block))

unfoldable pub block_length : Bytes → Result ℕ
block_length block = map_err (when getting_length) (octal_from (slice 12 12 block))

-- `sparse.iter()` over an array of `n` block headers.
unfoldable pub block_headers : ℕ → Bytes → List Bytes
block_headers zero bytes = []
block_headers (suc n) bytes = take 24 bytes ∷ block_headers n (drop 24 bytes)

-- What `add_block` has collected: the stretches, the offset reached in the file and the bytes of
-- the member that no block has taken yet.
pub record Blocks : Type 0 where
  pub stretches : List EntryIo
  pub cur : ℕ
  pub remaining : ℕ

-- The checks of `add_block` on a block of `len` bytes at `off`, in a member of `size` bytes.
unfoldable pub place_block : ℕ → ℕ → ℕ → Blocks → Result Blocks
place_block size off len st =
    if not (len == 0) && not ((size - st.remaining) % 512 == 0)
    then err (other sparse_unaligned)
    else if ltb off st.cur
    then err (other sparse_out_of_order)
    else if not (ltb (off + len) (2 ^ 64))
    then err (other sparse_too_long)
    else if ltb st.remaining len
    then err (other sparse_overrun)
    else ok (record {
      stretches =
          st.stretches
          ++ ((if ltb st.cur off then pad (off - st.cur) ∷ [] else []) ++ (data_of len ∷ []));
      cur = off + len;
      remaining = st.remaining - len;
    })

unfoldable pub add_block : ℕ → Blocks → Bytes → Result Blocks
unfolding place_block
add_block size st block =
    if block_is_empty block
    then ok st
    else Result.◌>>=◌ (block_offset block)
        λ off. Result.◌>>=◌ (block_length block) λ len. place_block size off len st

-- `for block in blocks { add_block(block)? }`
unfoldable pub add_blocks : ℕ → Blocks → List Bytes → Result Blocks
add_blocks size st [] = ok st
add_blocks size st (block ∷ blocks) =
    Result.◌>>=◌ (add_block size st block) λ st'. add_blocks size st' blocks

module _ {R : Type 0} (io : AsyncRead R) where
  -- `while ext.is_extended()`, with `next` for the rounds that follow the one that read `ext`.
  abbrev pub while_extended :
      (Blocks → M (EntriesFields R) Blocks) → Bytes → Blocks → M (EntriesFields R) Blocks
  while_extended next ext st = if get_or ext 504 0 == 1 then next st else return st

  -- An extension header of 21 blocks.
  abbrev pub take_extension :
      ℕ → (Blocks → M (EntriesFields R) Blocks) → Blocks → Option Bytes → M (EntriesFields R) Blocks
  take_extension size next st none = fail (other sparse_no_extension)
  take_extension size next st (some ext) = do
    advance_next io
    st' ← from (add_blocks size st (block_headers 21 ext))
    while_extended next ext st'

  unfoldable pub read_extensions : ℕ → ℕ → Blocks → M (EntriesFields R) Blocks
  read_extensions size zero st s = (s, out_of_fuel)
  read_extensions size (suc fuel) st s =
      after (take_extension size (read_extensions size fuel) st)
        (on_archive io (poll_try_read_all io 512) s)

  -- The two checks at the end, and what the entry becomes.
  abbrev pub conclude : EntryFields → Blocks → ℕ → M (EntriesFields R) EntryFields
  conclude entry st real =
      if not (st.cur == real)
      then fail (other sparse_size_mismatch)
      else if ltb 0 st.remaining
      then fail (other sparse_entry_mismatch)
      else return (record entry { io_data = st.stretches; size = st.cur })

  abbrev pub extend : ℕ → ℕ → Header → Blocks → M (EntriesFields R) Blocks
  extend size fuel gnu st = if is_extended gnu then read_extensions size fuel st else return st

  abbrev pub parse_gnu : ℕ → EntryFields → Header → M (EntriesFields R) EntryFields
  parse_gnu fuel entry gnu = do
    st ← from (
        add_blocks entry.size (record { stretches = []; cur = 0; remaining = entry.size })
          (block_headers 4 (get sparse_field gnu)))
    st' ← extend entry.size fuel gnu st
    real ← from (real_size gnu)
    conclude entry st' real

  -- Where a read of an extension header is pending, `entry.data` is left part-filled, and emptied
  -- again by the next poll.
  unfoldable pub poll_parse_sparse_header : ℕ → EntryFields → M (EntriesFields R) EntryFields
  poll_parse_sparse_header fuel entry =
      if not (is_gnu_sparse (entry_type entry.header))
      then return entry
      else elim (as_gnu entry.header) [
        | none ↦ fail (other sparse_listed_not_gnu)
        | some gnu ↦ parse_gnu fuel entry gnu
      ]
