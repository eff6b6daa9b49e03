-- ===== src/ArchiveTests.antt =====
-- Runs of the reader and the writer at concrete inputs, and their theorems at inputs that meet the
-- conditions.
use async_tar_rs.Base.{
  ◌+◌, ◌^◌, ◌≡◌, refl, true, false, ◌||◌, none, some, [], ◌∷◌, ◌++◌, Bytes, arith, replicate, take,
  drop, length-replicate,
}
use async_tar_rs.Base.Slots.{overlay, splice, slice}
use async_tar_rs.Base.Result.{ok}
use async_tar_rs.Poll.{ready, panicked}
use async_tar_rs.Text.Utf8.{from_utf8, trim, trim_start}
use async_tar_rs.Text.Numbers.{digits, format_radix, from_str_radix, read_digits}
use async_tar_rs.Codec.{octal_into, octal_from, num_field_wrapper_into, truncate}
use async_tar_rs.EntryType
use async_tar_rs.EntryType.{EntryType, gnu_sparse, is_gnu_sparse}
use async_tar_rs.Header.{
  Header, new_gnu, get, put, part, update, set_mtime, entry_type, set_entry_type, realsize, mtime,
  atime, ctime, uid, gid, mode, set_atime, set_ctime, set_uid, set_gid, set_mode, is_ustar, is_gnu,
  set_username, username_bytes, groupname_bytes, calculate_cksum, as_gnu, real_size, is_extended,
  sparse_field,
}
use async_tar_rs.Header.Sealed.{sealed}
use async_tar_rs.Header.Setters.{numeric-setters}
use async_tar_rs.Header.Owner.{username_bytes-set_username}
use async_tar_rs.Entry.Fields.{EntryFields, data_of, pad}
use async_tar_rs.Entry.Read.{poll_read_all}
use async_tar_rs.Entry.Whole.{cursor, poll_read_all-entry}
use async_tar_rs.Archive.Inner
use async_tar_rs.Archive.Inner.{Settings, ArchiveInner, poll_read, block_read, poll_try_read_all}
use async_tar_rs.Archive.Entries.{
  EntriesFields, all_zero, block_sum, poll_skip, poll_block, poll_header, poll_next_entry_raw,
  round_down, skip_loop,
}
use async_tar_rs.Archive.Stream.{byte_slice, byte_slice-IsSlice, opened}
use async_tar_rs.Archive.Raw.{between, bare, entry_of}
use async_tar_rs.Archive.Member.{poll_next_entry_raw-member, poll_next_entry_raw-end}
use async_tar_rs.Archive.Sealed.{sealed-IsReadable, block_sum-calculate_cksum}
use async_tar_rs.Archive.Overrun.{poll_skip-overrun}
use async_tar_rs.Archive.Next.{
  poll_next, poll_next_entry, next_entry_as, next_entry_loop, fetch_entry, settle,
}
use async_tar_rs.Archive.Fused.{ends, poll_next-fused}
use async_tar_rs.Archive.Sparse.{
  Blocks, add_blocks, add_block, block_is_empty, block_offset, block_length, block_headers,
  place_block, poll_parse_sparse_header,
}
use async_tar_rs.Archive.Stretches.{IsLaid, OnOk, OnReady, add_blocks-IsLaid}
use async_tar_rs.Archive.SparseLaws.{IsParsed, poll_parse_sparse_header-IsParsed}
use async_tar_rs.Builder.Append
use async_tar_rs.Builder.Append.{append, Builder}
use async_tar_rs.Builder.Layout.{
  byte_vec, byte_vec-IsVec, member, members, trailer, source, append-member, write_archive,
  write_archive-members,
}
use async_tar_rs.Tests.{gnu-IsBlock, gnu_bytes}

abbrev settings : Settings
settings = (Inner.new {R = Bytes} []).settings

abbrev h' : Header
h' = sealed 2 new_gnu

abbrev hi : Bytes
hi = b'h' ∷ b'i' ∷ []

numeric-setters_example :
    (mtime (set_mtime (2 ^ 63 + 5) new_gnu) ≡ ok (2 ^ 63 + 5))
    × (atime (set_atime (2 ^ 63 + 5) new_gnu) ≡ ok (2 ^ 63 + 5))
    × (ctime (set_ctime (2 ^ 63 + 5) new_gnu) ≡ ok (2 ^ 63 + 5))
    × (uid (set_uid (2 ^ 63 + 5) new_gnu) ≡ ok 5)
    × (gid (set_gid (2 ^ 63 + 5) new_gnu) ≡ ok 5)
    × (mode (set_mode (2 ^ 63 + 5) new_gnu) ≡ ok 5)
numeric-setters_example = numeric-setters new_gnu (2 ^ 63 + 5) gnu-IsBlock (omega arith)

gnu_known : (is_ustar new_gnu || is_gnu new_gnu) ≡ true
unfolding is_ustar is_gnu new_gnu set_mtime update get put slice splice take drop replicate
    num_field_wrapper_into octal_into format_radix digits overlay
gnu_known = refl

username_bytes-set_username_example :
    (h : Header) × (set_username hi new_gnu ≡ ok h)
    × (username_bytes h ≡ some hi)
    × (groupname_bytes h ≡ groupname_bytes new_gnu)
username_bytes-set_username_example =
    username_bytes-set_username hi new_gnu gnu-IsBlock (omega arith) (omega arith) gnu_known

block_sum-calculate_cksum_example : block_sum new_gnu ≡ calculate_cksum new_gnu
block_sum-calculate_cksum_example = block_sum-calculate_cksum new_gnu

append-member_example :
    (w : Bytes) × (append byte_vec new_gnu (source hi) [] ≡ (w, ready (ok tt)))
    × (w ≡ [] ++ member new_gnu hi)
append-member_example = append-member byte_vec (λ w. w) byte_vec-IsVec new_gnu hi []

poll_read_all-entry_example :
    (r : Bytes) × (r ≡ [])
    × (poll_read_all byte_slice (λ len. 1) 5 (cursor (opened settings 7 hi) (data_of 2 ∷ []) none)
        ≡ (cursor (opened settings 9 r) [] none, ready (ok hi)))
poll_read_all-entry_example =
    poll_read_all-entry byte_slice (λ r. r) byte_slice-IsSlice settings (λ len. 1)
      (λ len. omega arith) 5 hi [] 7 hi (omega arith) refl (omega arith)

poll_next_entry_raw-member_example :
    (r : Bytes) × (r ≡ hi)
    × (poll_next_entry_raw byte_slice 1 none
          (between 3 (opened settings 0 (7 ∷ 8 ∷ 9 ∷ h'.bytes ++ hi)))
        ≡ (
          between (3 + 512 + round_down (2 + 511)) (opened settings 515 r),
          ready (ok (some (entry_of settings h' 2 3))),
        ))
poll_next_entry_raw-member_example =
    poll_next_entry_raw-member byte_slice (λ r. r) byte_slice-IsSlice settings bare (7 ∷ 8 ∷ 9 ∷ [])
      hi 0 (7 ∷ 8 ∷ 9 ∷ h'.bytes ++ hi) (omega arith) 0 2 h' refl
      (sealed-IsReadable new_gnu 2 gnu-IsBlock gnu_bytes (omega arith)) (omega arith)

zeros-all_zero : all_zero (replicate 512 0) ≡ true
unfolding replicate
zeros-all_zero = refl

poll_next_entry_raw-end_example :
    (r : Bytes) × (r ≡ hi)
    × (poll_next_entry_raw byte_slice 1 none
          (between 2 (opened settings 0 (hi ++ (replicate 512 0 ++ hi))))
        ≡ (between 2 (opened settings 514 r), ready (ok none)))
poll_next_entry_raw-end_example =
    poll_next_entry_raw-end byte_slice (λ r. r) byte_slice-IsSlice settings bare hi hi 0
      (hi ++ (replicate 512 0 ++ hi)) (omega arith) 0 (replicate 512 0) refl
      (length-replicate 512 0) zeros-all_zero (omega arith)

poll_skip-overrun_example :
    (r : Bytes) × (r ≡ hi)
    × (poll_skip byte_slice 40000
          (between 40000 (opened settings 0 (replicate 32768 1 ++ (replicate 32768 2 ++ hi))))
        ≡ (between 40000 (opened settings 65536 r), panicked))
poll_skip-overrun_example =
    poll_skip-overrun byte_slice (λ r. r) byte_slice-IsSlice settings (replicate 32768 1)
      (replicate 32768 2) hi 40000 0 40000 (replicate 32768 1 ++ (replicate 32768 2 ++ hi)) refl
      (length-replicate 32768 1) (length-replicate 32768 2) (omega arith) (omega arith)
      (omega arith)

abbrev empty : EntriesFields Bytes
empty = between 0 (opened settings 0 [])

empty-ends : ends (poll_next byte_slice (λ len. 32) 1 empty).1 ≡ true
unfolding poll_next poll_next_entry next_entry_as next_entry_loop fetch_entry poll_next_entry_raw
    poll_header poll_block poll_skip skip_loop poll_try_read_all poll_read block_read settle take
    drop
empty-ends = refl

poll_next-fused_example :
    poll_next byte_slice (λ len. 32) 1 (poll_next byte_slice (λ len. 32) 1 empty).0
    ≡ ((poll_next byte_slice (λ len. 32) 1 empty).0, ready (ok none))
poll_next-fused_example = poll_next-fused byte_slice (λ len. 32) 1 empty empty-ends

-- 512 bytes of data behind 512 bytes of zeros.
abbrev pub sparse_header : Header
sparse_header = set_entry_type gnu_sparse (
    update realsize (λ dst. octal_into dst 1024)
      (update (part 398 12) (λ dst. octal_into dst 512)
        (update (part 386 12) (λ dst. octal_into dst 512) new_gnu)))

abbrev pub sparse_entry : EntryFields
sparse_entry = entry_of settings sparse_header 512 0

sparse_type : is_gnu_sparse (entry_type sparse_header) ≡ true
unfolding is_gnu_sparse entry_type set_entry_type EntryType.new EntryType.as_byte new_gnu set_mtime
    update get put slice splice take drop replicate num_field_wrapper_into octal_into format_radix
    digits overlay
sparse_type = refl

abbrev pub parsed_entry : EntryFields
parsed_entry = record sparse_entry { io_data = pad 512 ∷ data_of 512 ∷ []; size = 1024 }

sparse_parsed :
    (poll_parse_sparse_header byte_slice 1 sparse_entry empty).1 ≡ ready (ok parsed_entry)
unfolding poll_parse_sparse_header add_blocks add_block place_block block_is_empty block_offset
    block_length block_headers as_gnu is_gnu is_extended real_size octal_from from_utf8 trim
    trim_start from_str_radix read_digits truncate is_gnu_sparse entry_type set_entry_type
    EntryType.new EntryType.as_byte new_gnu set_mtime update get put slice splice take drop
    replicate num_field_wrapper_into octal_into format_radix digits overlay
sparse_parsed = refl

poll_parse_sparse_header-IsParsed_example :
    OnReady (IsParsed sparse_entry) (poll_parse_sparse_header byte_slice 1 sparse_entry empty).1
poll_parse_sparse_header-IsParsed_example =
    poll_parse_sparse_header-IsParsed byte_slice 1 sparse_entry empty sparse_type

abbrev fresh : Blocks
fresh = record { stretches = []; cur = 0; remaining = 512 }

fresh-IsLaid : IsLaid 512 fresh
fresh-IsLaid = record { reached = refl; taken = omega arith; bounded = omega arith }

add_blocks-IsLaid_example :
    OnOk (IsLaid 512) (add_blocks 512 fresh (block_headers 4 (get sparse_field sparse_header)))
add_blocks-IsLaid_example =
    add_blocks-IsLaid 512 (block_headers 4 (get sparse_field sparse_header)) fresh fresh-IsLaid

unfinished : (Append.new {W = Bytes} []).finished ≡ false
unfolding Append.new
unfinished = refl

write_archive-members_example :
    (b : Builder Bytes) × (write_archive byte_vec ((new_gnu, hi) ∷ []) (Append.new [])
      ≡ (b, ready (ok tt)))
    × (b.obj ≡ (Append.new {W = Bytes} []).obj ++ (members ((new_gnu, hi) ∷ []) ++ trailer))
write_archive-members_example =
    write_archive-members byte_vec (λ w. w) byte_vec-IsVec ((new_gnu, hi) ∷ []) (Append.new [])
      unfinished
