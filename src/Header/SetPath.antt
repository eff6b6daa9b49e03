-- ===== src/Header/SetPath.antt =====
-- src/header.rs: `Header::set_path`, and the path that `path_bytes` reads back.
use async_tar_rs.Base.{
  ◌+◌, ◌≤◌, ◌<◌, ◌≡◌, ◌≢◌, refl, sym, ap, ◌∙◌, ◌⊎◌, inl, inr, Bool, false, List, [], ◌∷◌, ◌++◌,
  Bytes, get_or, All, All-append, length, length-append, arith, subst,
}
use async_tar_rs.Base.Slots.{slice}
use async_tar_rs.Base.Result.{ok, err, Action, other, when, setting_path, value_too_long}
use async_tar_rs.Poll.{Outcome, ready, map_err}
use async_tar_rs.Text.Paths.{slash}
use async_tar_rs.Text.Paths.Join.{IsName, join}
use async_tar_rs.Codec.{truncate}
use async_tar_rs.Header.Layout.{
  Header, Part, get, put, is_ustar, as_ustar, name, prefix, magic, version,
}
use async_tar_rs.Header.Laws.{IsBlock, Apart, put-IsBlock, length-get, get-put, get-put-Apart}
use async_tar_rs.Header.ChecksumLaws.{IsByte, take-All, drop-All}
use async_tar_rs.Header.Sealed.{splice-IsByte}
use async_tar_rs.Header.Paths.{copy_path_into, copy_path_to, ustar_set_path, set_path}
use async_tar_rs.Header.PathLaws.{IsEnd, copy_path_into-join, truncate-append_end}
use async_tar_rs.Header.PathLimits.{copy_path_into_long}
use async_tar_rs.Header.PathKeeps.{copy_path_into-IsByte}
use async_tar_rs.Entry.Fields.{header_path_bytes, ustar_path_bytes}

pub join_no_nul : (ns : List Bytes) → All IsName ns → All (λ b. 1 ≤ b) (join ns)
unfolding join
join_no_nul [] h = tt
join_no_nul (n ∷ []) (h, hs) = h.no_nul
join_no_nul (n ∷ m ∷ ns) (h, hs) =
    All-append (λ b. 1 ≤ b) n (slash ∷ join (m ∷ ns)) h.no_nul
      (omega arith, join_no_nul (m ∷ ns) hs)

-- The header with nothing in front of its name.
abbrev pub IsUnprefixed : Header → Type 0
IsUnprefixed h = (is_ustar h ≡ false) ⊎ (truncate (get prefix h) ≡ [])

no_prefix : (h : Header) → truncate (get prefix h) ≡ [] → ustar_path_bytes h ≡ truncate (get name h)
unfolding ustar_path_bytes
no_prefix h e = ground (arith, e)

pub header_path_bytes-name :
    (h : Header) → IsUnprefixed h → header_path_bytes h ≡ truncate (get name h)
unfolding header_path_bytes as_ustar
header_path_bytes-name h (inl other_format) = ground (arith, other_format)
header_path_bytes-name h (inr e) = ground (arith, no_prefix h e)

-- A path that the name has room for is copied to the name, in all formats.
set_path_short :
    (path : Bytes) (h : Header)
    → length path ≤ 100
    → set_path path h ≡ copy_path_to name setting_path path false h
unfolding set_path ustar_set_path as_ustar
set_path_short path h le = ground arith

copy_path_to_lem :
    (p : Part) (action : Action) (path : Bytes) (is_link : Bool) (h : Header) (slot : Bytes)
    (o : Outcome (Unit {0}))
    → copy_path_into (get p h) path is_link ≡ (slot, o)
    → copy_path_to p action path is_link h ≡ (put p slot h, map_err (when action) o)
unfolding copy_path_to
copy_path_to_lem p action path is_link h slot o e =
    ap (λ (x : Bytes × Outcome (Unit {0})). (put p x.0 h, map_err (when action) x.1)) e

pub is_ustar-name :
    (vals : Bytes) (h : Header) → length vals ≡ 100 → is_ustar (put name vals h) ≡ is_ustar h
unfolding is_ustar
is_ustar-name vals h e =
    rw
      (
        get-put-Apart magic name vals h (inr (omega arith)) e,
        get-put-Apart version name vals h (inr (omega arith)) e,
      )
      refl

prefix-name :
    (vals : Bytes) (h : Header) → length vals ≡ 100 → get prefix (put name vals h) ≡ get prefix h
prefix-name vals h e = get-put-Apart prefix name vals h (inr (omega arith)) e

still_free :
    (vals : Bytes) (h : Header)
    → length vals ≡ 100
    → IsUnprefixed h
    → IsUnprefixed (put name vals h)
still_free vals h e (inl other_format) = inl (is_ustar-name vals h e ∙ other_format)
still_free vals h e (inr free) = inr (ap truncate (prefix-name vals h e) ∙ free)

pub first_byte :
    (text rest : Bytes) → 0 < length text → All (λ b. 1 ≤ b) text → get_or (text ++ rest) 0 0 ≢ 0
first_byte [] rest lt h = absurd (omega arith)
first_byte (b ∷ text) rest lt (hb, h) = omega arith

-- A copy to a field that has room for the names.
pub copied :
    (p : Part) (action : Action) (is_link : Bool) (n : Bytes) (ns : List Bytes) (h : Header)
    → All IsName (n ∷ ns)
    → length (join (n ∷ ns)) ≤ length (get p h)
    → (rest : Bytes) × (copy_path_to p action (join (n ∷ ns)) is_link h
        ≡ (put p (join (n ∷ ns) ++ rest) h, ready (ok tt)))
      × IsEnd rest
      × (length (join (n ∷ ns) ++ rest) ≡ length (get p h))
copied p action is_link n ns h names le =
    let (rest, stored, e, same) = copy_path_into-join n ns names (get p h) is_link le in
    (
      rest,
      copy_path_to_lem p action (join (n ∷ ns)) is_link h (join (n ∷ ns) ++ rest) (ready (ok tt))
          stored,
      e,
      omega (arith, length-append (join (n ∷ ns)) rest, same),
    )

module _ (n : Bytes) (ns : List Bytes) (h : Header) (b : IsBlock h)
    (names : All IsName (n ∷ ns)) where
  abbrev path : Bytes
  path = join (n ∷ ns)

  -- The header that a copied path leaves.
  set_path_stored :
      (rest : Bytes)
      → length path ≤ 100
      → length rest + length path ≡ 100
      → IsEnd rest
      → IsUnprefixed h
      → (header_path_bytes (put name (path ++ rest) h) ≡ path) × IsBlock (put name (path ++ rest) h)
  set_path_stored rest le same e free =
      let vals = path ++ rest in
      let wide : length vals ≡ 100 = length-append path rest ∙ omega (arith, same) in
      (
        header_path_bytes-name (put name vals h) (still_free vals h wide free)
            ∙ ap truncate (get-put name vals h b (omega arith) wide)
            ∙ truncate-append_end path rest (join_no_nul (n ∷ ns) names) e,
        put-IsBlock name vals h b,
      )

  -- Names joined by slashes, of at most 100 bytes together, are set as the path of a header of
  -- 512 bytes that is not UStar or has an empty prefix, and read back; the header stays a block,
  -- and a field apart from the name is as it was.
  pub set_path-join :
      (q : Part)
      → Apart q name
      → IsUnprefixed h
      → length path ≤ 100
      → (h' : Header) × (set_path path h ≡ (h', ready (ok tt)))
        × (header_path_bytes h' ≡ path)
        × IsBlock h'
        × (get q h' ≡ get q h)
  set_path-join q apart free le =
      let room = length-get name h b (omega arith) in
      let (rest, copied, e, same) =
        copy_path_into-join n ns names (get name h) false (omega (arith, room, le)) in
      let (back, b') = set_path_stored rest le (same ∙ room) e free in
      (
        put name (path ++ rest) h,
        set_path_short path h le
            ∙ copy_path_to_lem name setting_path path false h (path ++ rest) (ready (ok tt)) copied,
        back,
        b',
        get-put-Apart q name (path ++ rest) h apart
            (length-append path rest ∙ omega (arith, room, same)),
      )

  -- Names joined by slashes that are longer than the name are refused, and what is left is a block.
  pub set_path-join_long :
      is_ustar h ≡ false
      → 100 < length path
      → (set_path path h).1 ≡ ready (err (when setting_path (other value_too_long)))
  unfolding set_path as_ustar copy_path_to
  set_path-join_long other_format lt =
      let room = length-get name h b (omega arith) in
      let refused = copy_path_into_long n ns names (get name h) false (omega (arith, room, lt)) in
      ground (arith, other_format, refused)

-- What any outcome of `set_path` leaves of a header in another format than UStar.
pub record IsLeft (h h' : Header) : Type 0 where
  pub block : IsBlock h'
  pub bytes : All IsByte h'.bytes
  pub other_format : is_ustar h' ≡ false
  pub fields : (q : Part) → Apart q name → get q h' ≡ get q h

pub set_path-IsLeft :
    (ns : List Bytes) (h : Header)
    → All IsName ns
    → All (All IsByte) ns
    → IsBlock h
    → All IsByte h.bytes
    → is_ustar h ≡ false
    → IsLeft h (set_path (join ns) h).0
set_path-IsLeft ns h names small b hb other_format =
    let (l, hs) =
      copy_path_into-IsByte (get name h) ns false names small
        (unfold get slice in take-All IsByte 100 _ (drop-All IsByte 0 h.bytes hb)) in
    let slot : Bytes = (copy_path_into (get name h) (join ns) false).0 in
    let wide : length slot ≡ 100 = l ∙ length-get name h b (omega arith) in
    let left : IsLeft h (put name slot h) = record {
      block = put-IsBlock name slot h b;
      bytes = (unfold put in splice-IsByte 0 slot h.bytes hs hb);
      other_format = is_ustar-name slot h wide ∙ other_format;
      fields = λ q a. get-put-Apart q name slot h a wide;
    } in
    subst (IsLeft h) (sym (filled other_format)) left
  where
    filled :
        is_ustar h ≡ false
        → (set_path (join ns) h).0 ≡ put name (copy_path_into (get name h) (join ns) false).0 h
    filled other_format = unfold set_path as_ustar copy_path_to in ground (arith, other_format)
