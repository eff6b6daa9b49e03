-- ===== src/Builder/Stored.antt =====
-- src/builder.rs, `append_file`: the member that a file becomes.
use async_tar_rs.Base.{
  ℕ, ◌≤◌, ◌≡◌, refl, ap, ◌∙◌, inl, inr, true, false, none, List, ◌∷◌, ◌++◌, Bytes, All, length,
  arith, subst, replicate, take, drop,
}
use async_tar_rs.Base.Slots.{overlay, splice, slice}
use async_tar_rs.Base.Result.{ok}
use async_tar_rs.Poll.{Outcome, ready, M}
use async_tar_rs.Text.Numbers.{digits, format_radix}
use async_tar_rs.Text.Paths.Join.{IsName, join}
use async_tar_rs.Codec.{octal_into, num_field_wrapper_into}
use async_tar_rs.EntryType.{regular}
use async_tar_rs.Header.{
  Header, new_gnu, get, put, update, set_mtime, set_path, set_cksum, entry_type, is_ustar, is_gnu,
  magic, version, size_field,
}
use async_tar_rs.Header.Metadata.{
  HeaderMode, Metadata, is_file, entry_type_of, set_metadata_in_mode,
}
use async_tar_rs.Header.Laws.{IsBlock}
use async_tar_rs.Header.ChecksumLaws.{IsByte, bytes_below-IsByte}
use async_tar_rs.Header.SetPath.{IsLeft, set_path-IsLeft, set_path-join}
use async_tar_rs.Header.MetadataLaws.{IsStat}
use async_tar_rs.Header.Described.{
  stored_size, set_metadata-IsFilled, header_path_bytes-IsFilled, set_cksum-IsFilled,
}
use async_tar_rs.Header.Filled.{is_ustar-IsFilled}
use async_tar_rs.Archive.Member.{IsReadable}
use async_tar_rs.Archive.Sealed.{set_cksum-IsReadable, entry_type-set_cksum}
use async_tar_rs.Entry.Fields.{header_path_bytes}
use async_tar_rs.Builder.Append.{AsyncWrite, Source, append}
use async_tar_rs.Builder.Layout.{IsVec, member, source, append-member}
use async_tar_rs.Builder.Names.{Draft, prepare_header_path, complete_with, append_fs}
use async_tar_rs.Builder.LongPath.{draft}
use async_tar_rs.Builder.Files.{SourceTree, on_own, append_file}

new_gnu-IsBlock : IsBlock new_gnu
unfolding new_gnu set_mtime update get put slice splice take drop replicate num_field_wrapper_into
    octal_into format_radix digits overlay
new_gnu-IsBlock = refl

gnu_below : All IsByte new_gnu.bytes
unfolding new_gnu set_mtime update get put slice splice take drop replicate num_field_wrapper_into
    octal_into format_radix digits overlay
gnu_below = bytes_below-IsByte new_gnu.bytes refl

gnu_not_ustar : is_ustar new_gnu ≡ false
unfolding is_ustar new_gnu set_mtime update get put slice splice take drop replicate
    num_field_wrapper_into octal_into format_radix digits overlay
gnu_not_ustar = refl

gnu_gnu : is_gnu new_gnu ≡ true
unfolding is_gnu new_gnu set_mtime update get put slice splice take drop replicate
    num_field_wrapper_into octal_into format_radix digits overlay
gnu_gnu = refl

left_gnu : {h h' : Header} → IsLeft h h' → is_gnu h' ≡ is_gnu h
unfolding is_gnu
left_gnu left =
    rw (left.fields magic (inr (omega arith)), left.fields version (inr (omega arith))) refl

append_fs-accepted :
    {W : Type 0} (io : AsyncWrite W) (path : Bytes) (m : Metadata) (src : Source)
    (mode : HeaderMode) (w w' : W) (h h1 : Header)
    → set_path path new_gnu ≡ (h1, ready (ok tt))
    → append io (set_cksum (set_metadata_in_mode mode m h1)) src w ≡ (w', ready (ok tt))
    → append_fs io path m src mode none (draft w h)
      ≡ (draft w' (set_cksum (set_metadata_in_mode mode m h1)), ready (ok tt))
unfolding append_fs prepare_header_path complete_with
append_fs-accepted io path m src mode w w' h h1 e1 e2 = rw (e1, e2) refl

-- A file is neither a directory nor a link, so that its length is stored.
stored_file :
    (m : Metadata) → is_file m ≡ true → (stored_size m ≡ m.len) × (entry_type_of m ≡ regular)
unfolding entry_type_of
stored_file m f = ground arith

-- The header that describes a file.
described_header :
    (mode : HeaderMode) (m : Metadata) (h : Header)
    → IsStat m
    → is_file m ≡ true
    → IsBlock h
    → All IsByte h.bytes
    → is_ustar h ≡ false
    → is_gnu h ≡ true
    → IsReadable (set_cksum (set_metadata_in_mode mode m h)) m.len
      × (entry_type (set_cksum (set_metadata_in_mode mode m h)) ≡ regular)
      × (header_path_bytes (set_cksum (set_metadata_in_mode mode m h)) ≡ header_path_bytes h)
described_header mode m h s f b hb not_ustar gnu =
    let (filled, sized, typed) = set_metadata-IsFilled mode m h s b hb not_ustar gnu in
    let (len_is, kind_is) = stored_file m f in
    let h' = set_metadata_in_mode mode m h in
    (
      set_cksum-IsReadable h' m.len filled.block filled.bytes (sized ∙ ap (λ (t : ℕ). ok t) len_is),
      entry_type-set_cksum h' filled.block ∙ typed ∙ kind_is,
      header_path_bytes-IsFilled (is_ustar-IsFilled filled ∙ not_ustar)
            (set_cksum-IsFilled h' filled.block filled.bytes)
          ∙ header_path_bytes-IsFilled not_ustar filled,
    )

module _ {W : Type 0} (io : AsyncWrite W) (written : W → Bytes) (vec : IsVec io written)
    (tree : SourceTree) where
  on_own-ok :
      (m : M (Draft W) (Unit {0})) (w w' : W) (h : Header)
      → m (draft w new_gnu) ≡ (draft w' h, ready (ok tt))
      → on_own io tree m w ≡ (w', ready (ok tt))
  unfolding on_own
  on_own-ok m w w' h e = rw e refl

  append_file-ok :
      (path : Bytes) (m : Metadata) (src : Source) (mode : HeaderMode) (w : W)
      (x : W × Outcome (Unit {0}))
      → on_own io tree (append_fs io path m src mode none) w ≡ x
      → append_file io tree path (record { stat = ok m; source = src }) mode w ≡ x
  unfolding append_file
  append_file-ok path m src mode w x e = e

  -- `append_file` on an open regular file of `m.len` bytes, under names of bytes joined by
  -- slashes, of at most 100 bytes together, over a writer that keeps every byte, succeeds and
  -- writes one member: its data is that of the file, the reader accepts its header for as many
  -- bytes, with the type of a regular file, and the path in the header is the one that was given.
  -- The numbers of the metadata are below `2 ^ 64`.
  pub append_file-stored :
      (n : Bytes) (ns : List Bytes) (m : Metadata) (content : Bytes) (mode : HeaderMode) (w : W)
      → All IsName (n ∷ ns)
      → All (All IsByte) (n ∷ ns)
      → length (join (n ∷ ns)) ≤ 100
      → IsStat m
      → is_file m ≡ true
      → m.len ≡ length content
      → (h' : Header) × (w' : W) × (append_file io tree
            (join (n ∷ ns))
            (record { stat = ok m; source = source content })
            mode
            w
          ≡ (w', ready (ok tt)))
        × (written w' ≡ written w ++ member h' content)
        × IsReadable h' (length content)
        × (entry_type h' ≡ regular)
        × (header_path_bytes h' ≡ join (n ∷ ns))
  append_file-stored n ns m content mode w names bytes le s f len_is =
      let path = join (n ∷ ns) in
      let (h1, set, back, b1, same) =
        set_path-join n ns new_gnu new_gnu-IsBlock names size_field (inr (omega arith))
          (inl gnu_not_ustar) le in
      let left =
        subst (IsLeft new_gnu) (ap (λ (x : Header × Outcome (Unit {0})). x.0) set)
          (set_path-IsLeft (n ∷ ns) new_gnu names bytes new_gnu-IsBlock gnu_below gnu_not_ustar) in
      let (readable, kind_is, path_is) =
        described_header mode m h1 s f left.block left.bytes left.other_format
          (left_gnu left ∙ gnu_gnu) in
      let h' = set_cksum (set_metadata_in_mode mode m h1) in
      let (w', done, kept) = append-member io written vec h' content w in
      (
        h',
        w',
        append_file-ok path m (source content) mode w (w', ready (ok tt))
            (on_own-ok (append_fs io path m (source content) mode none) w w' h'
              (append_fs-accepted io path m (source content) mode w w' new_gnu h1 set done)),
        kept,
        subst (IsReadable h') len_is readable,
        kind_is,
        path_is ∙ back,
      )
