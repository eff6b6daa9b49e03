-- ===== src/RoundTrip/Files.antt =====
-- `Builder::append_file`, and the entry that `Archive` makes of what it wrote.
use async_tar_rs.Base.{
  ℕ, suc, ◌+◌, ◌^◌, ◌≤◌, ◌<◌, ◌≡◌, refl, ap, ◌∙◌, true, some, List, [], ◌∷◌, ◌++◌, Bytes, All,
  length, replicate, arith,
}
use async_tar_rs.Base.Result.{ok}
use async_tar_rs.Poll.{Outcome, ready}
use async_tar_rs.Text.Paths.Join.{IsName, join}
use async_tar_rs.EntryType.{
  regular, is_gnu_longname, is_gnu_longlink, is_gnu_sparse, is_pax_local_extensions,
}
use async_tar_rs.Header.{Header, entry_type}
use async_tar_rs.Header.Metadata.{HeaderMode, Metadata, is_file}
use async_tar_rs.Header.MetadataLaws.{IsStat}
use async_tar_rs.Header.ChecksumLaws.{IsByte}
use async_tar_rs.Archive.Inner.{AsyncRead, Settings}
use async_tar_rs.Archive.Entries.{EntriesFields}
use async_tar_rs.Archive.Stream.{IsSlice, opened}
use async_tar_rs.Archive.Raw.{between, bare, entry_of}
use async_tar_rs.Archive.Member.{IsReadable, poll_next_entry_raw-member}
use async_tar_rs.Archive.Plain.{IsPlain, poll_next-plain}
use async_tar_rs.Archive.Next.{poll_next}
use async_tar_rs.Archive.Sealed.{IsOrdinary, ordinary-IsPlain}
use async_tar_rs.Entry.Fields.{EntryFields, path_bytes, pax_value, header_path_bytes}
use async_tar_rs.Entry.Read.{Cursor, poll_read_all}
use async_tar_rs.Entry.Whole.{poll_read_all-entry}
use async_tar_rs.Builder.Layout.{byte_vec, byte_vec-IsVec, source, padding, member}
use async_tar_rs.Builder.Files.{SourceTree, OpenFile, append_file}
use async_tar_rs.Builder.Stored.{append_file-stored}
use async_tar_rs.RoundTrip.{entry_data}
use mathlib.Core.List.{append_assoc}

regular-IsOrdinary : IsOrdinary regular
unfolding is_gnu_longname is_gnu_longlink is_gnu_sparse is_pax_local_extensions
regular-IsOrdinary = record {
  not_longname = refl;
  not_longlink = refl;
  not_pax = refl;
  not_sparse = refl;
}

path_bytes-entry_of :
    (settings : Settings) (h : Header) (n pos : ℕ)
    → path_bytes (entry_of settings h n pos) ≡ header_path_bytes h
unfolding path_bytes pax_value
path_bytes-entry_of settings h n pos = refl

abbrev pub file_of : Metadata → Bytes → OpenFile
file_of m content = record { stat = ok m; source = source content }

module _ {R : Type 0} (io : AsyncRead R) (remaining : R → Bytes) (slice : IsSlice io remaining)
    (room : ℕ → ℕ) (grows : (len : ℕ) → 0 < room len) (settings : Settings) (fuel : ℕ) where
  -- A member and what follows it, at a place between two members.
  poll_next-member :
      (front content back : Bytes) (h : Header) (pos : ℕ) (r : R)
      → remaining r ≡ front ++ (member h content ++ back)
      → length front ≤ 32768
      → IsReadable h (length content)
      → IsPlain h
      → length content < suc fuel
      → pos + length front + length content + 2048 < 2 ^ 64
      → (s : EntriesFields R) × (poll_next io room
            (suc fuel)
            (between (pos + length front) (opened settings pos r))
          ≡ (s, ready (ok (some (ok (entry_of settings h (length content) (pos + length front)))))))
        × ((entry_data io room
              (suc fuel)
              (entry_of settings h (length content) (pos + length front))
              s).1
            ≡ ready (ok content))
        × (remaining
              (entry_data io room
                (suc fuel)
                (entry_of settings h (length content) (pos + length front))
                s).0.archive.obj
            ≡ replicate (padding (length content)) 0 ++ back)
  unfolding entry_data poll_read_all
  poll_next-member front content back h pos r laid small m p fits u =
      let at = pos + length front in
      let pad : Bytes = replicate (padding (length content)) 0 in
      let (r1, e1, found) =
        poll_next_entry_raw-member io remaining slice settings bare front (content ++ (pad ++ back))
          pos r small fuel (length content) h (laid ∙ simp append_assoc) m (omega (arith, u)) in
      let (r2, e2, read) =
        poll_read_all-entry io remaining slice settings room grows (suc fuel) content (pad ++ back)
          (at + 512) r1 fits e1 (omega (arith, u)) in
      (
        _,
        poll_next-plain io room fuel at _ _ _ settings h (length content) at p found,
        ap (λ (x : Cursor R × Outcome Bytes). x.1) read,
        ap (λ (x : Cursor R × Outcome Bytes). remaining x.0.inner.obj) read ∙ e2,
      )

  -- A regular file comes through the archive: `append_file` on an open file, under names of bytes
  -- joined by slashes, of at most 100 bytes together, over a writer that keeps every byte,
  -- succeeds, and behind up to 32768 bytes of the member before, `poll_next` on the bytes written
  -- yields an entry with that path and the type of a regular file; reading all of its data gives
  -- the content, and the reader then stands at the padding. The numbers of the metadata are below
  -- `2 ^ 64`, its length is that of the content, the rounds exceed the length of the content,
  -- every growth of the vector makes room for a byte at least, the reader fills every buffer as
  -- far as the bytes go, and the positions stay below `2 ^ 64`.
  pub poll_next-append_file :
      (tree : SourceTree) (n : Bytes) (ns : List Bytes) (m : Metadata) (mode : HeaderMode)
      (content front back : Bytes) (pos : ℕ) (r : R)
      → All IsName (n ∷ ns)
      → All (All IsByte) (n ∷ ns)
      → length (join (n ∷ ns)) ≤ 100
      → IsStat m
      → is_file m ≡ true
      → m.len ≡ length content
      → remaining r
        ≡ front
          ++ ((append_file byte_vec tree (join (n ∷ ns)) (file_of m content) mode []).0 ++ back)
      → length front ≤ 32768
      → length content < suc fuel
      → pos + length front + length content + 2048 < 2 ^ 64
      → (s : EntriesFields R) × (e : EntryFields) × ((append_file byte_vec tree
            (join (n ∷ ns))
            (file_of m content)
            mode
            []).1
          ≡ ready (ok tt))
        × (poll_next io room (suc fuel) (between (pos + length front) (opened settings pos r))
            ≡ (s, ready (ok (some (ok e)))))
        × (path_bytes e ≡ join (n ∷ ns))
        × (entry_type e.header ≡ regular)
        × ((entry_data io room (suc fuel) e s).1 ≡ ready (ok content))
        × (remaining (entry_data io room (suc fuel) e s).0.archive.obj
            ≡ replicate (padding (length content)) 0 ++ back)
  poll_next-append_file tree n ns m mode content front back pos r names bytes le stat f len_is laid
        small fits u =
      let (h, w, appended, kept, readable, kind_is, path_is) =
        append_file-stored byte_vec (λ w. w) byte_vec-IsVec tree n ns m content mode [] names bytes
          le stat f len_is in
      let (s, found, read, rest) =
        poll_next-member front content back h pos r
          (laid
            ∙ ap (λ (x : Bytes × Outcome (Unit {0})). front ++ (x.0 ++ back)) appended
            ∙ ap (λ (t : Bytes). front ++ (t ++ back)) kept)
          small readable (ordinary-IsPlain h regular kind_is regular-IsOrdinary) fits u in
      (
        s,
        entry_of settings h (length content) (pos + length front),
        ap (λ (x : Bytes × Outcome (Unit {0})). x.1) appended,
        found,
        path_bytes-entry_of settings h (length content) (pos + length front) ∙ path_is,
        kind_is,
        read,
        rest,
      )
