-- ===== src/Tests.antt =====
-- Runs at concrete inputs, and the theorems at inputs that meet their conditions.
use async_tar_rs.Base.{
  ◌+◌, ◌^◌, ◌≡◌, refl, false, List, [], ◌∷◌, map, Bytes, All, arith, length, replicate, take, drop,
}
use async_tar_rs.Base.Slots.{overlay, splice, slice}
use async_tar_rs.Base.Result.{ok, err, other, numeric_not_number}
use async_tar_rs.Poll.{ready}
use async_tar_rs.Text.Utf8.{from_utf8, trim}
use async_tar_rs.Text.Numbers.{digits, format_radix, from_str_radix, parse_u64}
use async_tar_rs.Codec.{
  truncate, copy_into, octal_from, octal_into, num_field_wrapper_into, num_field_wrapper_from,
}
use async_tar_rs.Codec.Octal.{octal_from-octal_into}
use async_tar_rs.Codec.Names.{truncate-copy_into}
use async_tar_rs.Codec.Numeric.{num_field_twelve, num_field_eight}
use async_tar_rs.EntryType
use async_tar_rs.EntryType.{as_byte-new, new-as_byte}
use async_tar_rs.Header.{
  Header, new_gnu, get, put, update, entry_type, cksum, set_cksum, calculate_cksum, set_mtime,
}
use async_tar_rs.Header.Laws.{IsBlock}
use async_tar_rs.Header.ChecksumLaws.{IsByte, bytes_below-IsByte, cksum-set_cksum}
use async_tar_rs.Pax.{extensions}
use async_tar_rs.Pax.Records.{IsRecord, Entry, encode, extensions-encode}
use async_tar_rs.Archive.Inner
use async_tar_rs.Archive.Entries.{EntriesFields, entries}
use async_tar_rs.Archive.Stream.{byte_slice, byte_slice-IsSlice}
use async_tar_rs.Archive.Member.{IsReadable}
use async_tar_rs.Archive.Sealed.{IsOrdinary, sealed-IsReadable}
use async_tar_rs.Header.Sealed.{sealed}
use async_tar_rs.Builder.Append
use async_tar_rs.Builder.Append.{Builder}
use async_tar_rs.Builder.Layout.{byte_vec, byte_vec-IsVec, write_archive}
use async_tar_rs.RoundTrip.{read_archive}
use async_tar_rs.RoundTrip.Archives.{IsMember, seal_all, read_archive-write_archive}

abbrev eight : Bytes
eight = replicate 8 0

abbrev twelve : Bytes
twelve = replicate 12 7

octal_into_mode : octal_into (0 ∷ 0 ∷ 0 ∷ 0 ∷ []) 0o17 ≡ b'0' ∷ b'1' ∷ b'7' ∷ 0 ∷ []
unfolding octal_into format_radix digits overlay replicate
octal_into_mode = refl

octal_from_spaces : octal_from (b' ' ∷ b'7' ∷ b'1' ∷ b' ' ∷ 0 ∷ b'9' ∷ []) ≡ ok 57
unfolding octal_from from_utf8 trim from_str_radix truncate
octal_from_spaces = refl

octal_from_bad : octal_from (b'8' ∷ 0 ∷ []) ≡ err (other numeric_not_number)
unfolding octal_from from_utf8 trim from_str_radix truncate
octal_from_bad = refl

length-eight : length eight ≡ 8
unfolding replicate
length-eight = refl

length-twelve : length twelve ≡ 12
unfolding replicate
length-twelve = refl

num_field_twelve_example :
    num_field_wrapper_from (num_field_wrapper_into twelve 8589934592) ≡ ok 8589934592
num_field_twelve_example = num_field_twelve twelve 8589934592 length-twelve (omega arith)

-- A uid above the signed range comes back smaller.
num_field_eight_example : num_field_wrapper_from (num_field_wrapper_into eight (2 ^ 63 + 5)) ≡ ok 5
num_field_eight_example = num_field_eight eight (2 ^ 63 + 5) length-eight (omega arith)

octal_from-octal_into_example : octal_from (octal_into eight 2097153) ≡ ok 1
octal_from-octal_into_example = octal_from-octal_into eight 6 2097153 length-eight (omega arith)

truncate-copy_into_example :
    (slot : Bytes) × (copy_into eight (b'm' ∷ b'e' ∷ []) ≡ ok slot)
    × (truncate slot ≡ b'm' ∷ b'e' ∷ [])
    × (length slot ≡ length eight)
truncate-copy_into_example =
    truncate-copy_into eight (b'm' ∷ b'e' ∷ []) (omega arith) (omega (arith, length-eight))

as_byte-new_example : EntryType.as_byte (EntryType.new 0) ≡ b'0'
as_byte-new_example = as_byte-new 0

new-as_byte_example : EntryType.new (EntryType.as_byte (EntryType.new 77)) ≡ EntryType.new 77
new-as_byte_example = new-as_byte 77

pub gnu-IsBlock : IsBlock new_gnu
unfolding new_gnu set_mtime update get put slice splice take drop replicate num_field_wrapper_into
    octal_into format_radix digits overlay
gnu-IsBlock = refl

pub gnu_bytes : All IsByte new_gnu.bytes
unfolding new_gnu set_mtime update get put slice splice take drop replicate num_field_wrapper_into
    octal_into format_radix digits overlay
gnu_bytes = bytes_below-IsByte new_gnu.bytes refl

pub gnu_ordinary : IsOrdinary (entry_type new_gnu)
unfolding new_gnu set_mtime update get put slice splice take drop replicate num_field_wrapper_into
    octal_into format_radix digits overlay entry_type EntryType.new EntryType.is_gnu_longname
    EntryType.is_gnu_longlink EntryType.is_pax_local_extensions EntryType.is_gnu_sparse
gnu_ordinary = record {
  not_longname = refl;
  not_longlink = refl;
  not_pax = refl;
  not_sparse = refl;
}

cksum-set_cksum_example : cksum (set_cksum new_gnu) ≡ ok (calculate_cksum (set_cksum new_gnu))
cksum-set_cksum_example = cksum-set_cksum new_gnu gnu-IsBlock gnu_bytes

sealed-IsReadable_example : IsReadable (sealed 700 new_gnu) 700
sealed-IsReadable_example = sealed-IsReadable new_gnu 700 gnu-IsBlock gnu_bytes (omega arith)

-- "9 uid=12" and a newline, then "8 gid=7".
abbrev records : List Entry
records =
    record { len = b'9' ∷ []; key = b'u' ∷ b'i' ∷ b'd' ∷ []; value = b'1' ∷ b'2' ∷ [] }
    ∷ record { len = b'8' ∷ []; key = b'g' ∷ b'i' ∷ b'd' ∷ []; value = b'7' ∷ [] }
    ∷ []

records_good : All (λ e. IsRecord e.len e.key e.value) records
unfolding parse_u64 from_str_radix
records_good = (
  record {
    digits = omega arith;
    counts = refl;
    key_bytes = omega arith;
    key_line = omega arith;
    value_line = omega arith;
  },
  (
    record {
      digits = omega arith;
      counts = refl;
      key_bytes = omega arith;
      key_line = omega arith;
      value_line = omega arith;
    },
    tt,
  ),
)

extensions-encode_example :
    extensions (encode records) ≡ map (λ e. ok (record { key = e.key; value = e.value })) records
extensions-encode_example = extensions-encode records records_good

abbrev two_members : List (Header × Bytes)
two_members = (new_gnu, b'h' ∷ b'i' ∷ []) ∷ (new_gnu, []) ∷ []

read_archive-write_archive_example :
    (b : Builder Bytes) × (write_archive byte_vec (seal_all two_members) (Append.new [])
      ≡ (b, ready (ok tt)))
    × (start : EntriesFields Bytes) × (entries false (Inner.new b.obj) ≡ ok start)
    × (s : EntriesFields Bytes) × (read_archive byte_slice (λ len. 32) 10 5 start
        ≡ (s, ready (ok (seal_all two_members))))
read_archive-write_archive_example =
    read_archive-write_archive byte_vec (λ w. w) byte_vec-IsVec byte_slice (λ r. r)
      byte_slice-IsSlice (λ b. b) (λ b. refl) (λ len. 32) (λ len. omega arith) 9 5 two_members []
      (member_good, (member_good_empty, tt)) (omega arith) (omega arith) refl
  where
    member_good : IsMember 10 (new_gnu, b'h' ∷ b'i' ∷ [])
    member_good = record {
      block = gnu-IsBlock;
      bytes = gnu_bytes;
      ordinary = gnu_ordinary;
      fits = omega arith;
    }

    member_good_empty : IsMember 10 (new_gnu, [])
    member_good_empty = record {
      block = gnu-IsBlock;
      bytes = gnu_bytes;
      ordinary = gnu_ordinary;
      fits = omega arith;
    }
