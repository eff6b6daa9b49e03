-- ===== src/ContentTests.antt =====
-- A sparse file that is unpacked, at concrete inputs.
use async_tar_rs.Base.{
  ℕ, ◌+◌, ◌-◌, ◌≡◌, refl, sym, ap, inr, ◌∙◌, false, none, List, [], ◌∷◌, ◌++◌, Bytes, arith, length,
  length-append, length-replicate, replicate, take, drop,
}
use async_tar_rs.Base.Slots.{overlay, splice, slice}
use async_tar_rs.Base.Integers
use async_tar_rs.Base.Result.{Result, ok, err, io_error}
use async_tar_rs.Poll.{ready}
use async_tar_rs.Text.Numbers.{digits, format_radix}
use async_tar_rs.Text.Paths.{ends_with_slash}
use async_tar_rs.Codec.{truncate, octal_into, num_field_wrapper_into}
use async_tar_rs.EntryType
use async_tar_rs.EntryType.{gnu_sparse}
use async_tar_rs.Header.{
  new_gnu, entry_type, set_entry_type, update, get, put, set_mtime, as_ustar, is_ustar,
}
use async_tar_rs.Archive.Inner
use async_tar_rs.Archive.Inner.{Settings}
use async_tar_rs.Archive.Stream.{byte_slice, byte_slice-IsSlice}
use async_tar_rs.Entry.Fields.{EntryIo, pad, data_of, path_bytes, pax_value, header_path_bytes}
use async_tar_rs.Unpack.System.{Call, write, seek_by, set_len, create_new, FileSystem, World}
use async_tar_rs.Unpack.File.{file, is_old_dir, unpack}
use async_tar_rs.Unpack.Content.{IsFile}
use async_tar_rs.Unpack.Spread.{spread}
use async_tar_rs.Unpack.Written.{IsDescribed, fresh, unpack-spread}
use async_tar_rs.PathTests.{file_name}
use async_tar_rs.ArchiveTests.{parsed_entry}
use mathlib.Core.Path.{ap₂}

-- One open file: what it holds, and where it is written.
abbrev Store : Type 0
Store = Bytes × ℕ

abbrev on_store : Call → Store → Store × Result ℕ
on_store (write fd b) (c, at) = ((c ++ b, at + length b), ok (length b))
on_store (seek_by fd (Integers.pos n)) (c, at) = ((c, at + n), ok (at + n))
on_store (seek_by fd (Integers.negsuc n)) s = (s, err (io_error 22))
on_store (set_len fd n) (c, at) = ((c ++ replicate (n - length c) 0, at), ok 0)
on_store (create_new p) s = (([], 0), ok 3)
on_store other s = (s, ok 0)

abbrev store : FileSystem Store
store = record {
  call = on_store;
  metadata = λ s p. err (io_error 2);
  symlink_metadata = λ s p. err (io_error 2);
  canonicalize = λ s p. ok p;
}

abbrev At : Bytes → Store → Type 0
At c s = s ≡ (c, length c)

abbrev Sought : Bytes → ℕ → Store → Type 0
Sought c n s = s ≡ (c, n)

store-IsFile : IsFile store 3 At Sought
store-IsFile = record {
  written = λ c b fs short at. (
    (c ++ b, length (c ++ b)),
    length b,
    ap (λ (s : Store). on_store (write 3 b) s) at
        ∙ ap (λ (k : ℕ). ((c ++ b, k), ok (length b))) (sym (length-append c b)),
    refl,
  );
  sought = λ c n fs short at.
      ((c, length c + n), ap (λ (s : Store). on_store (seek_by 3 (Integers.pos n)) s) at, refl);
  extended = λ c n fs short at. (
    (c ++ replicate n 0, length (c ++ replicate n 0)),
    0,
    ap (λ (s : Store). on_store (set_len 3 (length c + n)) s) at
        ∙ ap₂ (λ (k j : ℕ). ((c ++ replicate k 0, j), ok 0)) (omega arith)
            (omega (arith, length-append c (replicate n 0), length-replicate {A = ℕ} n 0)),
    refl,
  );
}

store-IsDescribed : IsDescribed store file_name 3 At
store-IsDescribed = record {
  timed = λ c t fs at. (fs, 0, refl, at);
  permitted = λ c m fs at. (fs, 0, refl, at);
}

-- What `poll_parse_sparse_header` makes of a sparse member of 512 bytes behind a hole.
entry_sparse : entry_type parsed_entry.header ≡ gnu_sparse
unfolding entry_type set_entry_type EntryType.new EntryType.as_byte new_gnu set_mtime update get put
    slice splice take drop replicate num_field_wrapper_into octal_into format_radix digits overlay
entry_sparse = refl

entry_not_dir : is_old_dir byte_slice store 8192 (λ len. 32) parsed_entry ≡ false
unfolding is_old_dir as_ustar is_ustar path_bytes pax_value header_path_bytes truncate
    ends_with_slash set_entry_type EntryType.as_byte new_gnu set_mtime update get put slice splice
    take drop replicate num_field_wrapper_into octal_into format_radix digits overlay
entry_not_dir = refl

abbrev sevens : Bytes
sevens = replicate 512 7

length-sevens : length sevens ≡ 512
length-sevens = length-replicate {A = ℕ} 512 7

abbrev place : List EntryIo → ℕ → Bytes → Store → World Bytes Store
place =
    fresh byte_slice (λ r. r) byte_slice-IsSlice parsed_entry.settings store file_name 3 At Sought
      store-IsFile store-IsDescribed 8192 (omega arith) (λ len. 32)

unpack-spread_example :
    (r' : Bytes) × (fs' : Store) × (r' ≡ 9 ∷ [])
    × At (spread parsed_entry.io_data sevens) fs'
    × (unpack byte_slice store 8192
          (λ len. 32)
          513
          parsed_entry
          none
          file_name
          (place parsed_entry.io_data 512 (sevens ++ 9 ∷ []) ([], 7))
        ≡ (place [] (512 + length sevens) r' fs', ready (ok (file 3))))
unfolding Inner.new
unpack-spread_example =
    unpack-spread byte_slice (λ r. r) byte_slice-IsSlice parsed_entry.settings store file_name 3 At
      Sought store-IsFile store-IsDescribed 8192 (omega arith) (λ len. 32) 513 parsed_entry none
      sevens (9 ∷ []) 512 (sevens ++ 9 ∷ []) ([], 7) ([], 0) (inr entry_sparse) entry_not_dir refl
      refl refl refl (omega (arith, length-sevens)) (omega (arith, length-sevens)) (omega arith)
      refl (omega (arith, length-sevens))

spread_runs :
    spread (data_of 2 ∷ pad 3 ∷ data_of 1 ∷ []) (1 ∷ 2 ∷ 3 ∷ []) ≡ 1 ∷ 2 ∷ 0 ∷ 0 ∷ 0 ∷ 3 ∷ []
unfolding spread take drop replicate
spread_runs = refl
