-- ===== src/Archive/Entries.antt =====
-- `EntriesFields`: the iteration over the members of an archive.
use async_tar_rs.Base.{
  ℕ, zero, suc, ◌+◌, ◌*◌, ◌/◌, ◌^◌, Bool, true, false, ◌&&◌, not, Option, none, some, [], ◌∷◌, ◌++◌,
  Bytes, length, take, drop, min, ltb, ◌==◌, if◌then◌else◌,
}
use async_tar_rs.Base.Result.{
  Result, ok, err, Error, other, unexpected_eof, seek_out_of_bounds, checksum_mismatch,
  size_overflow, not_at_start,
}
use async_tar_rs.Poll.{
  out_of_fuel, M, ◌>>=◌, ◌>>◌, return, fail, from, read, modify, after, add_u64, sub_u64,
}
use mathlib.Core.Option
use async_tar_rs.Header.{Header, sum_from, cksum, entry_size, set_uid, set_gid}
use async_tar_rs.Pax.{pax_extensions_value, pax_size, pax_uid, pax_gid}
use async_tar_rs.Archive.Inner.{AsyncRead, ArchiveInner, poll_read, poll_try_read_all}
use async_tar_rs.Entry.Fields.{data_of, EntryFields}

-- `archive` and `seekable_archive` are the same archive; the flag says that the second is there.
pub record EntriesFields (R : Type 0) : Type 0 where
  pub archive : ArchiveInner R
  pub seekable : Bool
  pub next : ℕ
  pub done : Bool
  pub raw : Bool
  pub fields : Option EntryFields
  pub gnu_longname : Option Bytes
  pub gnu_longlink : Option Bytes
  pub pax_extensions : Option Bytes

-- `_entries`, for `entries` and for `entries_with_seek`.
unfoldable pub entries : {R : Type 0} → Bool → ArchiveInner R → Result (EntriesFields R)
entries seekable a =
    if not (a.pos == 0)
    then err (other not_at_start)
    else ok (record {
      archive = a;
      seekable = seekable;
      next = 0;
      done = false;
      raw = false;
      fields = none;
      gnu_longname = none;
      gnu_longlink = none;
      pax_extensions = none;
    })

-- `Entries::raw`
unfoldable pub set_raw : {R : Type 0} → Bool → EntriesFields R → EntriesFields R
set_raw raw e = record e { raw = raw }

abbrev pub all_zero : Bytes → Bool
all_zero [] = true
all_zero (b ∷ bytes) = b == 0 && all_zero bytes

-- The sum that the reader compares with the checksum field.
unfoldable pub block_sum : Header → ℕ
block_sum h = sum_from 0 (take 148 h.bytes ++ drop 156 h.bytes) + 8 * 32

-- `checked_add`
abbrev pub checked_add : {S : Type 0} → ℕ → ℕ → Error → M S ℕ
checked_add a b e = if ltb (a + b) (2 ^ 64) then return (a + b) else fail e

-- `size & !(512 - 1)`: the low nine bits are cleared.
unfoldable pub round_down : ℕ → ℕ
round_down n = n / 512 * 512

-- `io::Result` is mapped to an `Option` of pax values where there is an extended header.
abbrev pub pax_lookup : Option Bytes → Bytes → Option ℕ
pax_lookup none key = none
pax_lookup (some pax) key = pax_extensions_value pax key

abbrev pub set_if : Option ℕ → (ℕ → Header → Header) → Header → Header
set_if none f h = h
set_if (some n) f h = f n h

unfoldable pub apply_pax : Option Bytes → Header → Header
apply_pax pax h =
    set_if (pax_lookup pax pax_gid) set_gid (set_if (pax_lookup pax pax_uid) set_uid h)

unfoldable pub pax_data_size : Option Bytes → ℕ → ℕ
pax_data_size pax zero = elim (pax_lookup pax pax_size) [ none ↦ 0 | some n ↦ n ]
pax_data_size pax (suc size) = suc size

module _ {R : Type 0} (io : AsyncRead R) where
  abbrev pub on_archive : {A : Type 0} → M (ArchiveInner R) A → M (EntriesFields R) A
  on_archive m s = (record s { archive = (m s.archive).0 }, (m s.archive).1)

  -- The seek moves the reader and leaves `pos` as it is.
  unfoldable pub seek_on : ℕ → M (EntriesFields R) ℕ
  seek_on amt =
      if ltb amt (2 ^ 63)
      then (on_archive
          (λ a. (record a { obj = (io.poll_seek a.obj amt).0 }, (io.poll_seek a.obj amt).1)))
      else fail (other seek_out_of_bounds)

  -- `while rem > 0`: each round asks for `min(amt, 32768)` bytes, whatever is left to skip. It
  -- reads a byte at least, so `rem` is fuel enough.
  unfoldable pub skip_loop : ℕ → ℕ → ℕ → M (EntriesFields R) ℕ
  skip_loop amt fuel zero s = return amt s
  skip_loop amt zero (suc rem) s = (s, out_of_fuel)
  skip_loop amt (suc fuel) (suc rem) s =
      after
        (λ filled. elim filled [
          | [] ↦ fail (other unexpected_eof)
          | b ∷ bytes ↦ do rem' ← sub_u64 (suc rem) (length (b ∷ bytes)); skip_loop amt fuel rem'
        ])
        (on_archive (poll_read io (min amt 32768)) s)

  unfoldable pub poll_skip : ℕ → M (EntriesFields R) ℕ
  poll_skip amt = do
    seekable ← read (λ s. s.seekable)
    if seekable then seek_on amt else skip_loop amt amt amt

  unfoldable pub advance_next : M (EntriesFields R) (Unit {0})
  advance_next = do
    next ← read (λ s. s.next)
    next' ← add_u64 next 512
    modify (λ s. record s { next = next' })

  -- One look for a header: `inl` is a block of zeros that is passed over, `inr none` the end.
  unfoldable pub poll_block : M (EntriesFields R) (Bool × Option Header)
  unfolding advance_next
  poll_block = do
    next ← read (λ s. s.next)
    pos ← read (λ s. s.archive.pos)
    delta ← sub_u64 next pos
    poll_skip delta
    block ← on_archive (poll_try_read_all io 512)
    ignore_zeros ← read (λ s. s.archive.ignore_zeros)
    elim block [
      | none ↦ return (false, none)
      | some bytes ↦
          if not (all_zero bytes)
          then (do advance_next; return (false, some (record { bytes = bytes })))
          else if not ignore_zeros
          then return (false, none)
          else do advance_next; return (true, none)
    ]

  -- The loop of `poll_next_entry_raw`: the header found, and where it stands.
  unfoldable pub poll_header : ℕ → M (EntriesFields R) (Option (Header × ℕ))
  poll_header zero s = (s, out_of_fuel)
  poll_header (suc fuel) s =
      after
        (λ found. elim found.0 [
          | true ↦ poll_header fuel
          | false ↦ return (Option.map (λ h. (h, s.next)) found.1)
        ])
        (poll_block s)

  unfoldable pub read_entry : Option Bytes → Header → ℕ → M (EntriesFields R) (Option EntryFields)
  read_entry pax header header_pos = do
    stored ← from (cksum header)
    let mismatch = not (block_sum header == stored)
    if mismatch then fail (other checksum_mismatch) else return tt
    let header' = apply_pax pax header
    file_pos ← read (λ s. s.next)
    listed ← from (entry_size header')
    let size = pax_data_size pax listed
    settings ← read (λ s. s.archive.settings)
    let ret : EntryFields = record {
      long_pathname = none;
      long_linkname = none;
      pax_extensions = none;
      settings = settings;
      header = header';
      size = size;
      header_pos = header_pos;
      file_pos = file_pos;
      io_data = data_of size ∷ [];
      read_state = none;
    }
    padded ← checked_add size 511 (other size_overflow)
    next ← checked_add file_pos (round_down padded) (other size_overflow)
    modify (λ s. record s { next = next })
    return (some ret)

  unfoldable pub poll_next_entry_raw : ℕ → Option Bytes → M (EntriesFields R) (Option EntryFields)
  poll_next_entry_raw fuel pax = do
    found ← poll_header fuel
    elim found [ none ↦ return none | some (header, header_pos) ↦ read_entry pax header header_pos ]
