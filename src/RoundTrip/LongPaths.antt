-- ===== src/RoundTrip/LongPaths.antt =====
-- `Builder::append_data` with a long path, and the entry that `Archive` makes of what it wrote.
use async_tar_rs.Base.{
  ℕ, suc, ◌+◌, ◌^◌, ◌≤◌, ◌<◌, ◌≡◌, refl, sym, ap, ◌∙◌, inr, false, some, List, [], ◌∷◌, ◌++◌, Bytes,
  All, length, length-append, get_or, replicate, arith, subst,
}
use async_tar_rs.Base.Result.{ok, map_err, when, getting_size}
use async_tar_rs.Poll.{ready}
use async_tar_rs.Codec.{num_field_wrapper_from}
use async_tar_rs.Text.Paths.Join.{IsName, join}
use async_tar_rs.EntryType
use async_tar_rs.Header.{
  Header, set_size, set_cksum, entry_size, entry_type, is_ustar, size_field, linkflag, magic,
  version,
}
use async_tar_rs.Header.Laws.{IsBlock, get-update-Apart, get_twelve, num_field-KeepsLength}
use async_tar_rs.Header.ChecksumLaws.{IsByte}
use async_tar_rs.Header.Sealed.{set_size-IsBlock, set_size-IsByte}
use async_tar_rs.Header.SetPath.{IsLeft}
use async_tar_rs.Archive.Inner.{AsyncRead, Settings}
use async_tar_rs.Archive.Entries.{EntriesFields}
use async_tar_rs.Archive.Stream.{IsSlice, opened}
use async_tar_rs.Archive.Raw.{between}
use async_tar_rs.Archive.Member.{IsReadable}
use async_tar_rs.Archive.Plain.{IsPlain}
use async_tar_rs.Archive.Next.{poll_next}
use async_tar_rs.Archive.Sealed.{
  IsOrdinary, ordinary-IsPlain, set_cksum-IsReadable, entry_type-set_cksum,
}
use async_tar_rs.Entry.Fields.{EntryFields, path_bytes}
use async_tar_rs.Builder.Prepare.{prepare_header, prepare_header-describes}
use async_tar_rs.Builder.Layout.{byte_vec, byte_vec-IsVec, source, padding}
use async_tar_rs.Builder.Names.{truncated, append_data}
use async_tar_rs.Builder.LongPath.{draft, append_data-long}
use async_tar_rs.RoundTrip.LongNames.{poll_next-longname}
use mathlib.Core.List.{append_assoc}

-- A header in another format than UStar, with the size set.
module _ (h : Header) (n : ℕ) (b : IsBlock h) (u : n < 2 ^ 64) where
  is_ustar-set_size : is_ustar (set_size n h) ≡ is_ustar h
  unfolding is_ustar set_size
  is_ustar-set_size =
      rw
        (
          get-update-Apart size_field _ h magic b (omega arith) (omega arith)
              (num_field-KeepsLength n) (inr (omega arith)),
          get-update-Apart size_field _ h version b (omega arith) (omega arith)
              (num_field-KeepsLength n) (inr (omega arith)),
        )
        refl

  entry_size-set_size : entry_size (set_size n h) ≡ ok n
  unfolding entry_size set_size
  entry_size-set_size =
      ap (map_err (when getting_size)) (get_twelve size_field h n b (omega arith) u refl)

  entry_type-set_size : entry_type (set_size n h) ≡ entry_type h
  unfolding entry_type set_size
  entry_type-set_size =
      ap (λ (t : Bytes). EntryType.new (get_or t 0 0))
        (get-update-Apart size_field _ h linkflag b (omega arith) (omega arith)
          (num_field-KeepsLength n) (inr (omega arith)))

  -- What the builder's header is, when its path is in it.
  module _ (h' : Header) (left : IsLeft (set_size n h) h') where
    left-IsReadable : IsReadable (set_cksum h') n
    left-IsReadable =
        set_cksum-IsReadable h' n left.block left.bytes (left_size ∙ entry_size-set_size)
      where
        left_size : entry_size h' ≡ entry_size (set_size n h)
        left_size =
            unfold entry_size in
            ap (λ (t : Bytes). map_err (when getting_size) (num_field_wrapper_from t))
              (left.fields size_field (inr (omega arith)))

    left-IsPlain : IsOrdinary (entry_type h) → IsPlain (set_cksum h')
    left-IsPlain o =
        ordinary-IsPlain (set_cksum h') (entry_type h)
          (entry_type-set_cksum h' left.block ∙ left_type ∙ entry_type-set_size) o
      where
        left_type : entry_type h' ≡ entry_type (set_size n h)
        left_type =
            unfold entry_type in
            ap (λ (t : Bytes). EntryType.new (get_or t 0 0))
              (left.fields linkflag (inr (omega arith)))

laid_out :
    (front a path pad h content back : Bytes)
    → front ++ (((a ++ (path ++ pad)) ++ (h ++ content)) ++ back)
      ≡ front ++ (a ++ (path ++ (pad ++ (h ++ (content ++ back)))))
laid_out front a path pad h content back = simp (append_assoc)

module _ {R : Type 0} (io : AsyncRead R) (remaining : R → Bytes) (slice : IsSlice io remaining)
    (room : ℕ → ℕ) (grows : (len : ℕ) → 0 < room len) (settings : Settings) (fuel : ℕ) where
  -- A path of more than 100 bytes, names of bytes joined by slashes, comes through the archive:
  -- `append_data` on a GNU or old header, over a writer that keeps every byte, succeeds, and
  -- behind up to 32768 bytes of the member before, `poll_next` on the bytes written yields one
  -- entry with that path and the size of the content, and the reader stands at the content. The
  -- header is a block of bytes of a type that describes no other member and is not sparse, the
  -- path cut for its name field is again names joined by slashes, the rounds exceed the length of
  -- the path, every growth of the vector makes room for a byte at least, the reader fills every
  -- buffer as far as the bytes go, and the positions stay below `2 ^ 64`.
  pub poll_next-append_data :
      (n m : Bytes) (ns ms : List Bytes) (h : Header) (content front back : Bytes) (pos : ℕ) (r : R)
      → All IsName (n ∷ ns)
      → All (All IsByte) (n ∷ ns)
      → All IsName (m ∷ ms)
      → All (All IsByte) (m ∷ ms)
      → truncated (join (n ∷ ns)) ≡ join (m ∷ ms)
      → 100 < length (join (n ∷ ns))
      → IsBlock h
      → All IsByte h.bytes
      → is_ustar h ≡ false
      → IsOrdinary (entry_type h)
      → remaining r
        ≡ front
          ++ ((append_data byte_vec
                (join (n ∷ ns))
                (source content)
                (draft [] (set_size (length content) h))).0.dst
              ++ back)
      → length front ≤ 32768
      → length (join (n ∷ ns)) < suc fuel
      → pos + length front + length (join (n ∷ ns)) + length content + 4096 < 2 ^ 64
      → (s : EntriesFields R) × (e : EntryFields) × ((append_data byte_vec
            (join (n ∷ ns))
            (source content)
            (draft [] (set_size (length content) h))).1
          ≡ ready (ok tt))
        × (poll_next io room (suc (suc fuel)) (between (pos + length front) (opened settings pos r))
            ≡ (s, ready (ok (some (ok e)))))
        × (path_bytes e ≡ join (n ∷ ns))
        × (e.size ≡ length content)
        × (remaining s.archive.obj ≡ content ++ (replicate (padding (length content)) 0 ++ back))
  poll_next-append_data n m ns ms h content front back pos r names bytes front_names front_bytes cut
        lt b hb other_format ordinary laid small fits u =
      let size = length content in
      let path = join (n ∷ ns) in
      let long : length (path ++ 0 ∷ []) ≡ length path + 1 = length-append path (0 ∷ []) in
      let small_size : size < 2 ^ 64 = omega (arith, u) in
      let (h', w', appended, kept, left) =
        append_data-long byte_vec (λ w. w) byte_vec-IsVec content n m ns ms (set_size size h) []
          names bytes front_names front_bytes (set_size-IsBlock h size b small_size)
          (set_size-IsByte h size b small_size hb)
          (is_ustar-set_size h size b small_size ∙ other_format) lt cut in
      let (named, linked, readable, readable') =
        prepare_header-describes (length path) (omega (arith, u)) in
      let (s, e, found, same_header, sized, path_is, left_over) =
        poll_next-longname io remaining slice room grows settings fuel front path
          ((content ++ replicate (padding size) 0) ++ back) (prepare_header (length path) b'L')
          (set_cksum h') size pos r
          (laid
            ∙ ap (λ x. front ++ (x.0.dst ++ back)) appended
            ∙ ap (λ (t : Bytes). front ++ (t ++ back)) kept
            ∙ laid_out front (prepare_header (length path) b'L').bytes (path ++ 0 ∷ [])
                (replicate (padding (length (path ++ 0 ∷ []))) 0) (set_cksum h').bytes
                (content ++ replicate (padding size) 0) back)
          small (subst (IsReadable (prepare_header (length path) b'L')) (sym long) readable) named
          (left-IsReadable h size b small_size h' left)
          (left-IsPlain h size b small_size h' left ordinary) fits u in
      (
        s,
        e,
        ap (λ x. x.1) appended,
        found,
        path_is,
        sized,
        left_over ∙ append_assoc content (replicate (padding size) 0) back,
      )
