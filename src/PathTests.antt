-- ===== src/PathTests.antt =====
-- Paths in headers and in front of them, at concrete names.
use async_tar_rs.Base.{
  ℕ, zero, suc, ◌≡◌, ◌≢◌, ◌≤◌, ◌<◌, refl, inl, inr, false, true, some, [], ◌∷◌, ◌++◌, Bytes, All,
  arith, length, length-append, length-replicate, replicate, take, drop, List,
}
use async_tar_rs.Base.Slots.{overlay, splice, slice}
use async_tar_rs.Base.Result.{ok}
use async_tar_rs.Poll.{ready}
use async_tar_rs.Text.Numbers.{digits, format_radix}
use async_tar_rs.Text.Utf8.{from_utf8, valid_up_to}
use async_tar_rs.Text.Paths.{slash}
use async_tar_rs.Text.Paths.Join.{IsName, join}
use async_tar_rs.Codec.{truncate, octal_into, num_field_wrapper_into}
use async_tar_rs.Header.{
  Header, Part, new_gnu, new_ustar, prefix, linkname, set_link_name, set_path, set_size, is_ustar,
  get, put, update, set_mtime, size_field,
}
use async_tar_rs.Header.Laws.{IsBlock, Apart}
use async_tar_rs.Header.ChecksumLaws.{IsByte}
use async_tar_rs.Header.SetPath.{set_path-join}
use async_tar_rs.Header.UstarSplit.{path_bytes-set_path_split}
use async_tar_rs.Header.LinkName.{link_name_bytes-set_link_name}
use async_tar_rs.Archive.Inner
use async_tar_rs.Archive.Inner.{Settings}
use async_tar_rs.Archive.Entries.{EntriesFields}
use async_tar_rs.Archive.Stream.{byte_slice, byte_slice-IsSlice, opened}
use async_tar_rs.Archive.Raw.{between}
use async_tar_rs.Archive.Next.{poll_next}
use async_tar_rs.Entry.Fields.{EntryFields, header_path_bytes, header_link_name_bytes, path_bytes}
use async_tar_rs.RoundTrip.LongPaths.{poll_next-append_data}
use async_tar_rs.Builder.Layout.{byte_vec, byte_vec-IsVec, member, source, padding}
use async_tar_rs.Builder.Names.{truncated, append_data}
use async_tar_rs.Builder.LongPath.{draft, append_data-short}
use async_tar_rs.Tests.{gnu-IsBlock, gnu_bytes, gnu_ordinary}

abbrev pub dir_name : Bytes
dir_name = b'd' ∷ b'i' ∷ b'r' ∷ []

abbrev pub file_name : Bytes
file_name = b'f' ∷ []

dir-IsName : IsName dir_name
dir-IsName = record {
  some_byte = omega arith;
  no_slash = omega arith;
  no_nul = omega arith;
  not_dot = refl;
  not_dot_dot = refl;
}

file-IsName : IsName file_name
file-IsName = record {
  some_byte = omega arith;
  no_slash = omega arith;
  no_nul = omega arith;
  not_dot = refl;
  not_dot_dot = refl;
}

abbrev pub names : List Bytes
names = dir_name ∷ file_name ∷ []

pub names-IsName : All IsName names
names-IsName = (dir-IsName, (file-IsName, tt))

not_ustar : is_ustar new_gnu ≡ false
unfolding is_ustar new_gnu set_mtime update get put slice splice take drop replicate
    num_field_wrapper_into octal_into format_radix digits overlay
not_ustar = refl

pub short_path : length (join names) ≤ 100
unfolding join
short_path = omega arith

set_path-join_example :
    (h' : Header) × (set_path (join names) new_gnu ≡ (h', ready (ok tt)))
    × (header_path_bytes h' ≡ join names)
    × IsBlock h'
    × (get size_field h' ≡ get size_field new_gnu)
set_path-join_example =
    set_path-join dir_name (file_name ∷ []) new_gnu gnu-IsBlock names-IsName size_field
      (inr (omega arith)) (inl not_ustar) short_path

append_data-short_example :
    (h' : Header) × (w' : Bytes) × (append_data byte_vec
        (join names)
        (source (b'h' ∷ []))
        (draft [] new_gnu)
      ≡ (draft w' h', ready (ok tt)))
    × (w' ≡ [] ++ member h' (b'h' ∷ []))
    × (header_path_bytes h' ≡ join names)
append_data-short_example =
    append_data-short byte_vec (λ w. w) byte_vec-IsVec (b'h' ∷ []) dir_name (file_name ∷ []) new_gnu
      [] names-IsName gnu-IsBlock (inl not_ustar) short_path

-- A name of 120 bytes, and what is left of it in the header.
abbrev long_name : Bytes
long_name = replicate 120 b'a'

abbrev cut_name : Bytes
cut_name = replicate 100 b'a'

cut_is : truncated (join (long_name ∷ [])) ≡ join (cut_name ∷ [])
unfolding truncated join take replicate valid_up_to from_utf8
cut_is = refl

all_same {ℓ} : (P : ℕ → Type ℓ) (k : ℕ) → P b'a' → All P (replicate k b'a')
unfolding replicate
all_same P zero h = tt
all_same P (suc k) h = (h, all_same P k h)

long-IsName : (k : ℕ) → IsName (replicate (suc (suc (suc k))) b'a')
long-IsName k = record {
  some_byte = omega (arith, length-replicate {A = ℕ} (suc (suc (suc k))) b'a');
  no_slash = all_same (λ b. b ≢ slash) (suc (suc (suc k))) (omega arith);
  no_nul = all_same (λ b. 1 ≤ b) (suc (suc (suc k))) (omega arith);
  not_dot = unfold replicate in refl;
  not_dot_dot = unfold replicate in refl;
}

abbrev settings : Settings
settings = (Inner.new {R = Bytes} []).settings

-- What is appended: the long name, its header, and two bytes.
abbrev appended : Bytes
appended =
    (append_data byte_vec (join (long_name ∷ [])) (source (b'h' ∷ b'i' ∷ []))
      (draft [] (set_size 2 new_gnu))).0.dst

poll_next-append_data_example :
    (s : EntriesFields Bytes) × (e : EntryFields) × ((append_data byte_vec
        (join (long_name ∷ []))
        (source (b'h' ∷ b'i' ∷ []))
        (draft [] (set_size 2 new_gnu))).1
      ≡ ready (ok tt))
    × (poll_next byte_slice (λ len. 32) 202 (between 0 (opened settings 0 ([] ++ (appended ++ []))))
        ≡ (s, ready (ok (some (ok e)))))
    × (path_bytes e ≡ join (long_name ∷ []))
    × (e.size ≡ 2)
    × (s.archive.obj ≡ b'h' ∷ b'i' ∷ (replicate (padding 2) 0 ++ []))
poll_next-append_data_example =
    poll_next-append_data byte_slice (λ r. r) byte_slice-IsSlice (λ len. 32) (λ len. omega arith)
      settings 200 long_name cut_name [] [] new_gnu (b'h' ∷ b'i' ∷ []) [] [] 0
      ([] ++ (appended ++ [])) (long-IsName 117, tt) (all_same IsByte 120 (omega arith), tt)
      (long-IsName 97, tt) (all_same IsByte 100 (omega arith), tt) cut_is long_is gnu-IsBlock
      gnu_bytes not_ustar gnu_ordinary refl (omega arith) (omega (arith, name_length))
      (omega (arith, name_length))
  where
    name_length : length (join (long_name ∷ [])) ≡ 120
    name_length = unfold join in length-replicate {A = ℕ} 120 b'a'

    long_is : 100 < length (join (long_name ∷ []))
    long_is = omega (arith, name_length)

ustar-IsBlock : IsBlock new_ustar
unfolding new_ustar set_mtime update get put slice splice take drop replicate num_field_wrapper_into
    octal_into format_radix digits overlay
ustar-IsBlock = refl

new_ustar_ustar : is_ustar new_ustar ≡ true
unfolding is_ustar new_ustar set_mtime update get put slice splice take drop replicate
    num_field_wrapper_into octal_into format_radix digits overlay
new_ustar_ustar = refl

-- A directory of 80 bytes and a file of 60.
abbrev dir80 : Bytes
dir80 = replicate 80 b'a'

abbrev file60 : Bytes
file60 = replicate 60 b'a'

path_bytes-set_path_split_example :
    (h' : Header) × (set_path (join (dir80 ∷ file60 ∷ [])) new_ustar ≡ (h', ready (ok tt)))
    × (header_path_bytes h' ≡ join (dir80 ∷ file60 ∷ []))
    × (truncate (get prefix h') ≡ join (dir80 ∷ []))
    × IsBlock h'
path_bytes-set_path_split_example =
    path_bytes-set_path_split dir80 file60 [] [] new_ustar ustar-IsBlock new_ustar_ustar
      (long-IsName 77, (long-IsName 57, tt)) (omega (arith, front_length))
      (omega (arith, back_length)) (omega (arith, split)) (inl refl)
  where
    front_length : length (join (dir80 ∷ [])) ≡ 80
    front_length = unfold join in length-replicate {A = ℕ} 80 b'a'

    back_length : length (join (file60 ∷ [])) ≡ 60
    back_length = unfold join in length-replicate {A = ℕ} 60 b'a'

    split : length (join (dir80 ∷ file60 ∷ [])) ≡ 141
    split =
        unfold join in
        omega (
          arith,
          length-append dir80 (slash ∷ file60),
          length-replicate {A = ℕ} 80 b'a',
          length-replicate {A = ℕ} 60 b'a',
        )

link_name_bytes-set_link_name_example :
    (h' : Header) × (set_link_name (join names) new_gnu ≡ (h', ready (ok tt)))
    × (header_link_name_bytes h' ≡ some (join names))
    × IsBlock h'
    × ((q : Part) → Apart q linkname → get q h' ≡ get q new_gnu)
link_name_bytes-set_link_name_example =
    link_name_bytes-set_link_name dir_name (file_name ∷ []) new_gnu names-IsName gnu-IsBlock
      short_path
