-- ===== src/DescribedTests.antt =====
-- A GNU long name, a block in two reads and a seek at concrete bytes.
use async_tar_rs.Base.{
  true, none, ℕ, ◌+◌, ◌-◌, ◌≡◌, refl, sym, ap, ◌∙◌, some, [], ◌∷◌, ◌++◌, Bytes, All, arith, length,
  min, replicate, take, drop, length-replicate,
}
use async_tar_rs.Base.Slots.{overlay, splice, slice}
use async_tar_rs.Base.Result.{ok}
use async_tar_rs.Poll.{ready, pending, panicked}
use async_tar_rs.Text.Numbers.{digits, format_radix}
use async_tar_rs.Codec.{octal_into, num_field_wrapper_into}
use async_tar_rs.EntryType
use async_tar_rs.EntryType.{gnu_long_name}
use async_tar_rs.Header.{
  Header, new_gnu, get, put, update, set_mtime, set_size, set_cksum, calculate_cksum, sum_from,
  entry_type, set_entry_type, is_gnu, is_ustar, as_gnu, as_ustar,
}
use async_tar_rs.Header.Laws.{IsBlock}
use async_tar_rs.Header.ChecksumLaws.{IsByte, bytes_below-IsByte}
use async_tar_rs.Header.Sealed.{sealed}
use async_tar_rs.Archive.Inner
use async_tar_rs.Archive.Inner.{AsyncRead, ArchiveInner, Settings, poll_try_read_all}
use async_tar_rs.Archive.Seek.{IsSeekable, seeking, poll_next_entry_raw-seek}
use async_tar_rs.Archive.Split.{buffered, poll_try_read_all-split}
use async_tar_rs.Archive.Entries.{EntriesFields, all_zero, round_down, poll_next_entry_raw}
use async_tar_rs.Archive.Stream.{byte_slice, byte_slice-IsSlice, opened}
use async_tar_rs.Archive.Raw.{between, entry_of}
use async_tar_rs.Archive.Next.{kind, longname, longlink, poll_next}
use async_tar_rs.Archive.Sealed.{sealed-IsReadable, sealed-IsPlain}
use async_tar_rs.Entry.Fields.{EntryFields, path_bytes}
use async_tar_rs.Builder.Layout.{padding}
use async_tar_rs.Builder.Prepare.{prepare_header, prepare_header-describes}
use async_tar_rs.Archive.Member.{IsReadable}
use async_tar_rs.RoundTrip.LongNames.{poll_next-longname}
use async_tar_rs.Tests.{gnu-IsBlock, gnu_bytes, gnu_ordinary}

abbrev settings : Settings
settings = (Inner.new {R = Bytes} []).settings

abbrev path : Bytes
path = b'a' ∷ b'/' ∷ b'b' ∷ []

abbrev name_header : Header
name_header = set_entry_type gnu_long_name new_gnu

name_header-IsBlock : IsBlock name_header
unfolding set_entry_type EntryType.as_byte new_gnu set_mtime update get put slice splice take drop
    replicate num_field_wrapper_into octal_into format_radix digits overlay
name_header-IsBlock = refl

name_header_bytes : All IsByte name_header.bytes
unfolding set_entry_type EntryType.as_byte new_gnu set_mtime update get put slice splice take drop
    replicate num_field_wrapper_into octal_into format_radix digits overlay
name_header_bytes = bytes_below-IsByte name_header.bytes refl

names_next : kind (sealed 4 name_header) ≡ longname
unfolding kind set_entry_type EntryType.as_byte EntryType.new EntryType.is_gnu_longname
    EntryType.is_gnu_longlink EntryType.is_pax_local_extensions new_gnu set_mtime set_size set_cksum
    calculate_cksum sum_from entry_type as_gnu as_ustar is_gnu is_ustar update get put slice splice
    take drop replicate num_field_wrapper_into octal_into format_radix digits overlay
names_next = refl

abbrev long_archive : Bytes
long_archive =
    []
    ++ ((sealed 4 name_header).bytes
        ++ ((path ++ 0 ∷ [])
            ++ (replicate (padding 4) 0 ++ ((sealed 2 new_gnu).bytes ++ b'h' ∷ b'i' ∷ []))))

poll_next-longname_example :
    (s : EntriesFields Bytes) × (e : EntryFields) × (poll_next byte_slice
        (λ len. 32)
        5
        (between 0 (opened settings 0 long_archive))
      ≡ (s, ready (ok (some (ok e)))))
    × (e.header ≡ sealed 2 new_gnu)
    × (e.size ≡ 2)
    × (path_bytes e ≡ path)
    × (s.archive.obj ≡ b'h' ∷ b'i' ∷ [])
poll_next-longname_example =
    poll_next-longname byte_slice (λ r. r) byte_slice-IsSlice (λ len. 32) (λ len. omega arith)
      settings 3 [] path (b'h' ∷ b'i' ∷ []) (sealed 4 name_header) (sealed 2 new_gnu) 2 0
      long_archive refl (omega arith)
      (sealed-IsReadable name_header 4 name_header-IsBlock name_header_bytes (omega arith))
      names_next (sealed-IsReadable new_gnu 2 gnu-IsBlock gnu_bytes (omega arith))
      (sealed-IsPlain new_gnu 2 gnu-IsBlock (omega arith) gnu_ordinary) (omega arith) (omega arith)

-- A reader that gives 300 bytes at most.
abbrev by_300 : AsyncRead Bytes
by_300 = record {
  poll_read = λ r n. (drop (min n 300) r, ready (ok (take (min n 300) r)));
  poll_seek = λ r n. (drop n r, ready (ok n));
}

abbrev in_two : ArchiveInner Bytes
in_two = opened settings 0 (replicate 512 1)

abbrev first_bytes : Bytes
first_bytes = 1 ∷ replicate 299 1

first_part : by_300.poll_read in_two.obj 512 ≡ (replicate 212 1, ready (ok first_bytes))
unfolding take drop replicate
first_part = refl

second_part : by_300.poll_read (replicate 212 1) 212 ≡ ([], ready (ok (1 ∷ replicate 211 1)))
unfolding take drop replicate
second_part = refl

poll_try_read_all-split_example :
    (poll_try_read_all by_300 512 in_two
      ≡ (buffered by_300 in_two (replicate 212 1) first_bytes, pending))
    × ((poll_try_read_all by_300 512 (buffered by_300 in_two (replicate 212 1) first_bytes)).1
        ≡ panicked)
poll_try_read_all-split_example =
    poll_try_read_all-split by_300 512 in_two (replicate 212 1) [] 1 1 (replicate 299 1)
      (replicate 211 1) (omega arith) refl first_part second
      (omega (arith, length-replicate {A = ℕ} 299 1, length-replicate {A = ℕ} 211 1))
  where
    second :
        by_300.poll_read (replicate 212 1) (512 - length first_bytes)
        ≡ ([], ready (ok (1 ∷ replicate 211 1)))
    second =
        let left : 512 - length first_bytes ≡ 212 = omega (arith, length-replicate {A = ℕ} 299 1) in
        ap (λ (k : ℕ). by_300.poll_read (replicate 212 1) k) left ∙ second_part

prepare_header-describes_example :
    (kind (prepare_header 200 b'L') ≡ longname)
    × (kind (prepare_header 200 b'K') ≡ longlink)
    × IsReadable (prepare_header 200 b'L') 201
    × IsReadable (prepare_header 200 b'K') 201
prepare_header-describes_example = prepare_header-describes 200 (omega arith)

byte_slice-IsSeekable : IsSeekable byte_slice (λ r. r)
byte_slice-IsSeekable = record { sought = λ r n. (n, refl); passed = λ r n. refl }

abbrev member : Header
member = sealed 2 new_gnu

member-IsReadable : IsReadable member 2
member-IsReadable = sealed-IsReadable new_gnu 2 gnu-IsBlock gnu_bytes (omega arith)

abbrev unread : Bytes
unread = replicate 512 7

-- The data of a member, the member itself, padded data, a member that is lost, and the end.
abbrev sought_archive : Bytes
sought_archive =
    unread ++ (member.bytes ++ (replicate 512 8 ++ (member.bytes ++ (replicate 512 0 ++ []))))

no_bytes : all_zero (replicate 512 0) ≡ true
unfolding all_zero replicate
no_bytes = refl

poll_next_entry_raw-seek_example :
    (s s' : EntriesFields Bytes) × (poll_next_entry_raw byte_slice 1 none
        (seeking (512 + length unread) (opened settings 512 sought_archive))
      ≡ (s, ready (ok (some (entry_of settings member 2 (512 + length unread))))))
    × (poll_next_entry_raw byte_slice 1 none s ≡ (s', ready (ok none)))
    × (s'.archive.obj ≡ [])
poll_next_entry_raw-seek_example =
    poll_next_entry_raw-seek byte_slice (λ r. r) byte_slice-IsSlice byte_slice-IsSeekable settings
      unread (replicate 512 8) member.bytes (replicate 512 0) [] member 0 2 512 sought_archive refl
      member-IsReadable (unfold round_down in omega (arith, length-replicate {A = ℕ} 512 8))
      (member-IsReadable.block ∙ sym (length-replicate {A = ℕ} 512 7))
      (length-replicate {A = ℕ} 512 0) no_bytes (omega (arith, length-replicate {A = ℕ} 512 7))
