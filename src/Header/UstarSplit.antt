-- ===== src/Header/UstarSplit.antt =====
-- src/header.rs: a long path in a UStar header, and `path_bytes` of what is stored.
use async_tar_rs.Base.{
  ℕ, ◌+◌, ◌≤◌, ◌<◌, ◌≡◌, ◌≢◌, refl, sym, ap, ◌∙◌, ◌⊎◌, inl, inr, true, false, List, [], ◌∷◌, ◌++◌,
  Bytes, All, length, length-append, subst, drop, drop-append, get_or, leb, arith,
}
use async_tar_rs.Base.Result.{ok, setting_path}
use async_tar_rs.Poll.{ready, ◌>>◌}
use async_tar_rs.Text.Paths.{slash}
use async_tar_rs.Text.Paths.Join.{IsName, join, length-join_pos}
use async_tar_rs.Text.Paths.Parents.{join-append, length-join-cons}
use async_tar_rs.Codec.{truncate}
use async_tar_rs.Header.Layout.{Header, get, put, is_ustar, as_ustar, name, prefix, magic, version}
use async_tar_rs.Header.Laws.{IsBlock, put-IsBlock, length-get, get-put, get-put-Apart}
use async_tar_rs.Header.Paths.{copy_path_to, ustar_set_path, set_path}
use async_tar_rs.Header.PathLaws.{truncate-append_end}
use async_tar_rs.Header.SetPath.{is_ustar-name, join_no_nul, first_byte, copied}
use async_tar_rs.Header.UstarPath.{All-split, find_prefix-join}
use async_tar_rs.Entry.Fields.{header_path_bytes, ustar_path_bytes}
use mathlib.Core.List.{append_assoc}

-- The two fields of a UStar header that hold a path.
pub record IsSplit (front back : Bytes) (h : Header) : Type 0 where
  pub block : IsBlock h
  pub ustar : is_ustar h ≡ true
  pub front_field : truncate (get prefix h) ≡ front
  pub back_field : truncate (get name h) ≡ back
  pub front_byte : get_or (get prefix h) 0 0 ≢ 0

header_path_bytes_split :
    (f : ℕ) (front back : Bytes) (h : Header)
    → IsSplit (f ∷ front) back h
    → header_path_bytes h ≡ (f ∷ front) ++ (slash ∷ back)
unfolding header_path_bytes as_ustar ustar_path_bytes
header_path_bytes_split f front back h s =
    let u = s.ustar in
    let e1 = s.front_field in let e2 = s.back_field in let e3 = s.front_byte in ground arith

set_path-ustar :
    (path : Bytes) (h : Header) → is_ustar h ≡ true → set_path path h ≡ ustar_set_path path h
unfolding set_path as_ustar
set_path-ustar path h ustar = ground (arith, ustar)

split_bytes :
    (front : Bytes) {back : Bytes} {h : Header}
    → 0 < length front
    → IsSplit front back h
    → header_path_bytes h ≡ front ++ (slash ∷ back)
split_bytes [] lt s = absurd (omega arith)
split_bytes (f ∷ front) {back} {h} lt s = header_path_bytes_split f front back h s

is_ustar-prefix :
    (vals : Bytes) (h : Header) → length vals ≡ 155 → is_ustar (put prefix vals h) ≡ is_ustar h
unfolding is_ustar
is_ustar-prefix vals h e =
    rw
      (
        get-put-Apart magic prefix vals h (inl (omega arith)) e,
        get-put-Apart version prefix vals h (inl (omega arith)) e,
      )
      refl

-- Each name takes a byte at least.
count_names :
    (n : Bytes) (ns : List Bytes) → All IsName (n ∷ ns) → length ns < length (join (n ∷ ns))
count_names n [] h = length-join_pos n [] h.0
count_names n (m ∷ ns) (h, hs) = omega (arith, length-join-cons n m ns, count_names m ns hs)

module _ (f b : Bytes) (fs back : List Bytes) (h : Header) (block : IsBlock h)
    (ustar : is_ustar h ≡ true) (names : All IsName ((f ∷ fs) ++ (b ∷ back)))
    (fits : length (join (f ∷ fs)) ≤ 155) (fits_back : length (join (b ∷ back)) ≤ 100) where
  abbrev path : Bytes
  path = join ((f ∷ fs) ++ (b ∷ back))

  -- Both parts are stored.
  stored-IsSplit :
      (h' : Header) × ((copy_path_to prefix setting_path (join (f ∷ fs)) false
            >> copy_path_to name setting_path (join (b ∷ back)) false)
          h
        ≡ (h', ready (ok tt)))
      × IsSplit (join (f ∷ fs)) (join (b ∷ back)) h'
  stored-IsSplit =
      let (front_names, back_names) = All-split IsName (f ∷ fs) (b ∷ back) names in
      let front_room = length-get prefix h block (omega arith) in
      let (rest, c1, e1, same1) =
        copied prefix setting_path false f fs h front_names (omega (arith, front_room, fits)) in
      let front_vals = join (f ∷ fs) ++ rest in
      let h1 = put prefix front_vals h in
      let block1 = put-IsBlock prefix front_vals h block in
      let back_room = length-get name h1 block1 (omega arith) in
      let (rest', c2, e2, same2) =
        copied name setting_path false b back h1 back_names (omega (arith, back_room, fits_back)) in
      let back_vals = join (b ∷ back) ++ rest' in
      let wide1 : length front_vals ≡ 155 = same1 ∙ front_room in
      let wide2 : length back_vals ≡ 100 = same2 ∙ back_room in
      let front_is : get prefix (put name back_vals h1) ≡ front_vals =
        get-put-Apart prefix name back_vals h1 (inr (omega arith)) wide2
        ∙ get-put prefix front_vals h block (omega arith) wide1 in
      (
        put name back_vals h1,
        rw (c1, c2) refl,
        record {
          block = put-IsBlock name back_vals h1 block1;
          ustar = is_ustar-name back_vals h1 wide2 ∙ is_ustar-prefix front_vals h wide1 ∙ ustar;
          front_field =
              ap truncate front_is
              ∙ truncate-append_end (join (f ∷ fs)) rest (join_no_nul (f ∷ fs) front_names) e1;
          back_field =
              ap truncate (get-put name back_vals h1 block1 (omega arith) wide2)
              ∙ truncate-append_end (join (b ∷ back)) rest' (join_no_nul (b ∷ back) back_names) e2;
          front_byte =
              subst (λ (t : Bytes). get_or t 0 0 ≢ 0) (sym front_is)
                (first_byte (join (f ∷ fs)) rest (length-join_pos f fs front_names.0)
                  (join_no_nul (f ∷ fs) front_names));
        },
      )

  enough : length back < length path
  enough = omega (
    arith,
    count_names b back (All-split IsName (f ∷ fs) (b ∷ back) names).1,
    ap (λ (t : Bytes). length t) (join-append f b fs back),
    length-append (join (f ∷ fs)) (slash ∷ join (b ∷ back)),
  )

  rest_of_path : drop (length (join (f ∷ fs)) + 1) path ≡ join (b ∷ back)
  rest_of_path =
      ap (drop (length (join (f ∷ fs)) + 1)) (
        join-append f b fs back ∙ sym (append_assoc (join (f ∷ fs)) (slash ∷ []) (join (b ∷ back))))
      ∙ drop-append (length (join (f ∷ fs)) + 1) (join (f ∷ fs) ++ slash ∷ []) (join (b ∷ back))
          (length-append (join (f ∷ fs)) (slash ∷ []))

  -- Names joined by slashes, of more than 100 bytes together, are set as the path of a UStar
  -- header of 512 bytes, and read back, where the first names, of at most 155 bytes together,
  -- leave at most 100 bytes for the rest, and where either only one name is left or one name more
  -- is longer than 155 bytes: the first names go to the prefix.
  pub path_bytes-set_path_split :
      100 < length path
      → (back ≡ []) ⊎ (155 < length (join ((f ∷ fs) ++ (b ∷ []))))
      → (h' : Header) × (set_path path h ≡ (h', ready (ok tt)))
        × (header_path_bytes h' ≡ path)
        × (truncate (get prefix h') ≡ join (f ∷ fs))
        × IsBlock h'
  path_bytes-set_path_split long longest =
      let (h', stored, split) = stored-IsSplit in
      let long_path : leb (length path) 100 ≡ false = ground (arith, long) in
      let found = find_prefix-join f b fs fits (length path) back names longest enough in
      (
        h',
        set_path-ustar path h ustar
            ∙ unfold ustar_set_path in rw (long_path, found, rest_of_path) stored,
        split_bytes (join (f ∷ fs)) (length-join_pos f fs names.0) split
            ∙ sym (join-append f b fs back),
        split.front_field,
        split.block,
      )
