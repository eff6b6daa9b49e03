-- ===== src/FilesTests.antt =====
-- Files that are put into an archive and taken out of it, at concrete inputs.
use async_tar_rs.Base.{
  ℕ, ◌≡◌, ◌≢◌, refl, true, false, none, some, [], ◌∷◌, ◌++◌, Bytes, arith, replicate, if◌then◌else◌,
}
use async_tar_rs.Base.Slots.{bytes_eq}
use async_tar_rs.Base.Result.{ok, err, io_error}
use async_tar_rs.Poll.{ready, out_of_fuel}
use async_tar_rs.Text.Paths.Join.{join}
use async_tar_rs.EntryType.{regular}
use async_tar_rs.Header.{Header, entry_type}
use async_tar_rs.Header.Metadata.{Metadata, complete, deterministic}
use async_tar_rs.Archive.Inner
use async_tar_rs.Archive.Inner.{Settings}
use async_tar_rs.Archive.Member.{IsReadable}
use async_tar_rs.Archive.Stream.{byte_slice, byte_slice-IsSlice, opened}
use async_tar_rs.Archive.Entries.{EntriesFields}
use async_tar_rs.Archive.Raw.{between}
use async_tar_rs.Archive.Next.{poll_next}
use async_tar_rs.Header.MetadataLaws.{IsStat}
use async_tar_rs.RoundTrip.{entry_data}
use async_tar_rs.RoundTrip.Files.{file_of, poll_next-append_file}
use async_tar_rs.Entry.Fields.{EntryFields, path_bytes, header_path_bytes}
use async_tar_rs.Builder.Layout.{byte_vec, byte_vec-IsVec, member, padding, source}
use async_tar_rs.Builder.Files.{
  DirEntry, SourceTree, append_file, append_path_with_name, append_dir_all,
}
use async_tar_rs.Builder.Stored.{append_file-stored}
use async_tar_rs.Builder.Special.{append_path_with_name-special}
use async_tar_rs.Builder.Walk.{IsFinite, append_dir_all-ends}
use async_tar_rs.PathTests.{dir_name, file_name, names, names-IsName, short_path}

-- `dir`, with one file in it.
abbrev file_path : Bytes
file_path = join names

abbrev file_entry : DirEntry
file_entry = record {
  path = file_path;
  file_type = ok (record { is_dir = false; is_symlink = false });
}

abbrev stat_of : ℕ → Metadata
stat_of mode = record { mtime = 7; uid = 1; gid = 2; mode = mode; len = 2; rdev = 0 }

abbrev tree : SourceTree
tree = record {
  metadata = λ p. ok (stat_of 0o100644);
  symlink_metadata = λ p. ok (stat_of 0o010644);
  open_file = λ p. ok (record { stat = ok (stat_of 0o100644); source = source (b'h' ∷ b'i' ∷ []) });
  read_link = λ p. err (io_error 22);
  read_dir = λ p. if bytes_eq p dir_name then ok (ok file_entry ∷ []) else err (io_error 20);
}

abbrev rank : Bytes → ℕ
rank p = if bytes_eq p dir_name then 1 else 0

not_dir : bytes_eq file_path dir_name ≡ false
unfolding join
not_dir = refl

tree-IsFinite : IsFinite rank tree
tree-IsFinite src entries e = ground (arith, not_dir)

append_dir_all-ends_example :
    (append_dir_all byte_vec tree 2 dir_name dir_name complete true []).1 ≢ out_of_fuel
append_dir_all-ends_example =
    append_dir_all-ends byte_vec (λ w b e. absurd (ground (arith, e))) tree rank tree-IsFinite 2
      dir_name dir_name complete true [] (omega arith)

abbrev settings : Settings
settings = (Inner.new {R = Bytes} []).settings

abbrev hi : Bytes
hi = b'h' ∷ b'i' ∷ []

abbrev stat_small : IsStat (stat_of 0o100644)
stat_small = record {
  mtime_small = omega arith;
  uid_small = omega arith;
  gid_small = omega arith;
  mode_small = omega arith;
  len_small = omega arith;
}

append_file-stored_example :
    (h' : Header) × (w' : Bytes) × (append_file byte_vec tree
        (join names)
        (record { stat = ok (stat_of 0o100644); source = source (b'h' ∷ b'i' ∷ []) })
        deterministic
        []
      ≡ (w', ready (ok tt)))
    × (w' ≡ [] ++ member h' (b'h' ∷ b'i' ∷ []))
    × IsReadable h' 2
    × (entry_type h' ≡ regular)
    × (header_path_bytes h' ≡ join names)
append_file-stored_example =
    append_file-stored byte_vec (λ w. w) byte_vec-IsVec tree dir_name (file_name ∷ [])
      (stat_of 0o100644) (b'h' ∷ b'i' ∷ []) deterministic [] names-IsName (omega arith) short_path
      stat_small refl refl

abbrev archived : Bytes
archived =
    (append_file byte_vec tree (join names) (file_of (stat_of 0o100644) hi) deterministic []).0

poll_next-append_file_example :
    (s : EntriesFields Bytes) × (e : EntryFields) × ((append_file byte_vec tree
        (join names)
        (file_of (stat_of 0o100644) hi)
        deterministic
        []).1
      ≡ ready (ok tt))
    × (poll_next byte_slice (λ len. 32) 5 (between 0 (opened settings 0 ([] ++ (archived ++ []))))
        ≡ (s, ready (ok (some (ok e)))))
    × (path_bytes e ≡ join names)
    × (entry_type e.header ≡ regular)
    × ((entry_data byte_slice (λ len. 32) 5 e s).1 ≡ ready (ok hi))
    × ((entry_data byte_slice (λ len. 32) 5 e s).0.archive.obj ≡ replicate (padding 2) 0 ++ [])
poll_next-append_file_example =
    poll_next-append_file byte_slice (λ r. r) byte_slice-IsSlice (λ len. 32) (λ len. omega arith)
      settings 4 tree dir_name (file_name ∷ []) (stat_of 0o100644) deterministic hi [] [] 0
      ([] ++ (archived ++ [])) names-IsName (omega arith) short_path stat_small refl refl refl
      (omega arith) (omega arith) (omega arith)

-- A pipe, by its own metadata.
append_path_with_name-special_example :
    (append_path_with_name byte_vec tree file_path (some (b'x' ∷ [])) complete false []
      ≡ append_path_with_name byte_vec tree file_path (some (b'y' ∷ [])) complete false [])
    × (append_path_with_name byte_vec tree file_path (some (b'x' ∷ [])) complete false []
        ≡ append_path_with_name byte_vec tree file_path none complete false [])
append_path_with_name-special_example =
    append_path_with_name-special byte_vec tree file_path (b'x' ∷ []) (b'y' ∷ []) complete false
      (stat_of 0o010644) [] refl refl refl refl
