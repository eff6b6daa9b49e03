-- ===== src/Builder/LongPath.antt =====
-- src/builder.rs: `append_data` with paths that the header has room for, and with longer ones.
use async_tar_rs.Base.{
  sym, true, get_or, ◌==◌, not, ◌&&◌, if◌then◌else◌, ◌≤◌, ◌<◌, ◌≡◌, refl, Bool-cases, ap, ◌∙◌, inl,
  inr, false, List, [], ◌∷◌, ◌++◌, Bytes, All, length, length-take, take, ltb, arith, subst,
}
use async_tar_rs.Base.Result.{ok, err, Error, other, when, setting_path, value_too_long}
use async_tar_rs.Poll.{Outcome, ready}
use async_tar_rs.Text.Paths.Join.{IsName, join}
use async_tar_rs.Text.Utf8.{valid_up_to, valid_up_to-le}
use async_tar_rs.Codec.{truncate}
use async_tar_rs.Header.{
  Header, Part, get, as_ustar, name, prefix, magic, version, cksum_field, size_field, set_path,
  set_cksum, calculate_cksum, is_ustar,
}
use async_tar_rs.Header.Laws.{IsBlock, Apart, get-update-Apart, octal_into-KeepsLength}
use async_tar_rs.Header.ChecksumLaws.{IsByte}
use async_tar_rs.Header.SetPath.{
  IsLeft, IsUnprefixed, header_path_bytes-name, set_path-IsLeft, set_path-join, set_path-join_long,
}
use async_tar_rs.Entry.Fields.{header_path_bytes, ustar_path_bytes, contains}
use async_tar_rs.Builder.Append.{AsyncWrite, Source, append}
use async_tar_rs.Builder.Prepare.{prepare_header}
use async_tar_rs.Builder.Layout.{IsVec, member, source, append-member}
use async_tar_rs.Builder.Names.{
  Draft, with_nul, truncated, prepare_header_path, complete_with, append_data,
}
use mathlib.Core.List.{append_assoc}
use mathlib.Core.Path.{ap₂}

-- The path in a UStar header, by its name and its prefix.
abbrev ustar_path_of : Bytes → Bytes → Bytes
ustar_path_of own front =
    if get_or front 0 0 == 0 && not (contains 0x5c own)
    then truncate own
    else elim (truncate front) [
      | [] ↦ truncate own
      | c ∷ rest ↦ (c ∷ rest) ++ (b'/' ∷ truncate own)
    ]

header_path_bytes-ustar :
    (h : Header)
    → is_ustar h ≡ true
    → header_path_bytes h ≡ ustar_path_of (get name h) (get prefix h)
unfolding header_path_bytes as_ustar ustar_path_bytes
header_path_bytes-ustar h u = rw (u, header_path_bytes) refl

header_path_bytes-same :
    (h h' : Header)
    → is_ustar h' ≡ is_ustar h
    → get name h' ≡ get name h
    → get prefix h' ≡ get prefix h
    → header_path_bytes h' ≡ header_path_bytes h
header_path_bytes-same h h' format name_same prefix_same = elim (Bool-cases (is_ustar h)) [
  | inl u ↦
      header_path_bytes-ustar h' (format ∙ u)
      ∙ ap₂ ustar_path_of name_same prefix_same
      ∙ sym (header_path_bytes-ustar h u)
  | inr u ↦
      header_path_bytes-name h' (inl (format ∙ u))
      ∙ ap truncate name_same
      ∙ sym (header_path_bytes-name h (inl u))
]

-- The checksum stands in another field.
get-set_cksum :
    (h : Header) (q : Part) → IsBlock h → Apart q cksum_field → get q (set_cksum h) ≡ get q h
unfolding set_cksum
get-set_cksum h q b apart =
    get-update-Apart cksum_field _ h q b (omega arith) (omega arith)
      (octal_into-KeepsLength (calculate_cksum h)) apart

header_path_bytes-set_cksum :
    (h : Header) → IsBlock h → header_path_bytes (set_cksum h) ≡ header_path_bytes h
header_path_bytes-set_cksum h b =
    header_path_bytes-same h (set_cksum h)
      (unfold is_ustar in
        rw
          (
            get-set_cksum h magic b (inr (omega arith)),
            get-set_cksum h version b (inr (omega arith)),
          )
          refl)
      (get-set_cksum h name b (inl (omega arith))) (get-set_cksum h prefix b (inr (omega arith)))

abbrev pub draft : {W : Type 0} → W → Header → Draft W
draft w h = record { dst = w; header = h }

module _ {W : Type 0} (io : AsyncWrite W) where
  append_data-accepted :
      (path : Bytes) (src : Source) (w w' : W) (h h' : Header)
      → set_path path h ≡ (h', ready (ok tt))
      → append io (set_cksum h') src w ≡ (w', ready (ok tt))
      → append_data io path src (draft w h) ≡ (draft w' (set_cksum h'), ready (ok tt))
  unfolding append_data prepare_header_path complete_with
  append_data-accepted path src w w' h h' e1 e2 = rw (e1, e2) refl

  append_data-refused :
      (path : Bytes) (src : Source) (w w1 w2 : W) (h h1 h2 : Header) (e : Error)
      → set_path path h ≡ (h1, ready (err e))
      → ltb (length path) 100 ≡ false
      → append io (prepare_header (length path) b'L') (with_nul path) w ≡ (w1, ready (ok tt))
      → set_path (truncated path) h1 ≡ (h2, ready (ok tt))
      → append io (set_cksum h2) src w1 ≡ (w2, ready (ok tt))
      → append_data io path src (draft w h) ≡ (draft w2 (set_cksum h2), ready (ok tt))
  unfolding append_data prepare_header_path complete_with
  append_data-refused path src w w1 w2 h h1 h2 e e1 long e2 e3 e4 = rw (e1, long, e2, e3, e4) refl

length-truncated : (path : Bytes) → length (truncated path) ≤ 100
unfolding truncated
length-truncated path = omega (
  arith,
  length-take (valid_up_to (take 100 path)) path,
  valid_up_to-le (take 100 path),
  length-take 100 path,
)

IsLeft-by : {h h1 h2 : Header} → IsLeft h h1 → IsLeft h1 h2 → IsLeft h h2
IsLeft-by one two = record {
  block = two.block;
  bytes = two.bytes;
  other_format = two.other_format;
  fields = λ q a. two.fields q a ∙ one.fields q a;
}

module _ {W : Type 0} (io : AsyncWrite W) (written : W → Bytes) (vec : IsVec io written)
    (content : Bytes) where
  -- Names joined by slashes, of at most 100 bytes together, are the path of the member that
  -- `append_data` writes over a writer that keeps every byte: it succeeds without a long name
  -- member, the bytes added are the header as the caller gets it back, the content and the zeros
  -- up to a whole block, and the header reads back the path. The header given is a block of 512
  -- bytes that is not UStar or has an empty prefix.
  pub append_data-short :
      (n : Bytes) (ns : List Bytes) (h : Header) (w : W)
      → All IsName (n ∷ ns)
      → IsBlock h
      → IsUnprefixed h
      → length (join (n ∷ ns)) ≤ 100
      → (h' : Header) × (w' : W) × (append_data io (join (n ∷ ns)) (source content) (draft w h)
          ≡ (draft w' h', ready (ok tt)))
        × (written w' ≡ written w ++ member h' content)
        × (header_path_bytes h' ≡ join (n ∷ ns))
  append_data-short n ns h w names b free le =
      let (h', set, back, b', same) =
        set_path-join n ns h b names size_field (inr (omega arith)) free le in
      let (w', done, kept) = append-member io written vec (set_cksum h') content w in
      (
        set_cksum h',
        w',
        append_data-accepted io (join (n ∷ ns)) (source content) w w' h h' set done,
        kept,
        header_path_bytes-set_cksum h' b' ∙ back,
      )

  -- A longer path goes into a member of its own, in front of one that has its first bytes.
  pub append_data-long :
      (n m : Bytes) (ns ms : List Bytes) (h : Header) (w : W)
      → All IsName (n ∷ ns)
      → All (All IsByte) (n ∷ ns)
      → All IsName (m ∷ ms)
      → All (All IsByte) (m ∷ ms)
      → IsBlock h
      → All IsByte h.bytes
      → is_ustar h ≡ false
      → 100 < length (join (n ∷ ns))
      → truncated (join (n ∷ ns)) ≡ join (m ∷ ms)
      → (h' : Header) × (w' : W) × (append_data io (join (n ∷ ns)) (source content) (draft w h)
          ≡ (draft w' (set_cksum h'), ready (ok tt)))
        × (written w'
            ≡ written w
              ++ (member (prepare_header (length (join (n ∷ ns))) b'L') (join (n ∷ ns) ++ 0 ∷ [])
                  ++ member (set_cksum h') content))
        × IsLeft h h'
  append_data-long n m ns ms h w names bytes front_names front_bytes b hb other_format lt cut =
      let path = join (n ∷ ns) in
      let h1 = (set_path path h).0 in
      let left1 = set_path-IsLeft (n ∷ ns) h names bytes b hb other_format in
      let (h2, set, back, b2, same) =
        set_path-join m ms h1 left1.block front_names size_field (inr (omega arith))
          (inl left1.other_format)
          (omega (arith, ap (λ (t : Bytes). length t) cut, length-truncated path)) in
      let left2 =
        set_path-IsLeft (m ∷ ms) h1 front_names front_bytes left1.block left1.bytes
          left1.other_format in
      let (w1, described, kept1) =
        append-member io written vec (prepare_header (length path) b'L') (path ++ 0 ∷ []) w in
      let (w2, done, kept2) = append-member io written vec (set_cksum h2) content w1 in
      (
        h2,
        w2,
        append_data-refused io path (source content) w w1 w2 h h1 h2
            (when setting_path (other value_too_long))
            (ap (λ (o : Outcome (Unit {0})). (h1, o))
              (set_path-join_long n ns h b names other_format lt))
            (ground (arith, lt)) described (ap (λ t. set_path t h1) cut ∙ set) done,
        kept2
            ∙ ap (λ (t : Bytes). t ++ member (set_cksum h2) content) kept1
            ∙ append_assoc (written w) (member (prepare_header (length path) b'L') (path ++ 0 ∷ []))
                (member (set_cksum h2) content),
        IsLeft-by left1
            (subst (IsLeft h1) (ap (λ (x : Header × Outcome (Unit {0})). x.0) set) left2),
      )
