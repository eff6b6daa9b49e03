-- ===== src/Header/LinkName.antt =====
-- src/header.rs: `Header::set_link_name`, and the link name that is read back.
use async_tar_rs.Base.{
  true, ◌≡◌, ◌≢◌, ◌≤◌, ap, sym, ◌∙◌, subst, some, List, ◌∷◌, ◌++◌, Bytes, All, get_or, length,
  arith,
}
use async_tar_rs.Base.Result.{setting_link_name}
use async_tar_rs.Poll.{ready}
use async_tar_rs.Base.Result.{ok}
use async_tar_rs.Text.Paths.Join.{IsName, join, length-join_pos}
use async_tar_rs.Codec.{truncate}
use async_tar_rs.Header.Layout.{Header, Part, get, put, linkname}
use async_tar_rs.Header.Laws.{IsBlock, Apart, put-IsBlock, length-get, get-put, get-put-Apart}
use async_tar_rs.Header.Paths.{set_link_name}
use async_tar_rs.Header.PathLaws.{truncate-append_end}
use async_tar_rs.Header.SetPath.{copied, first_byte, join_no_nul}
use async_tar_rs.Entry.Fields.{header_link_name_bytes}

link_name_field :
    (h : Header) (text : Bytes)
    → get_or (get linkname h) 0 0 ≢ 0
    → truncate (get linkname h) ≡ text
    → header_link_name_bytes h ≡ some text
unfolding header_link_name_bytes
link_name_field h text first e = ground (arith, first, e)

-- Names joined by slashes, of at most 100 bytes together, are set as the link name of a header of
-- 512 bytes, in every format, and read back; the header stays a block, and the fields apart from
-- the link name are as they were.
pub link_name_bytes-set_link_name :
    (n : Bytes) (ns : List Bytes) (h : Header)
    → All IsName (n ∷ ns)
    → IsBlock h
    → length (join (n ∷ ns)) ≤ 100
    → (h' : Header) × (set_link_name (join (n ∷ ns)) h ≡ (h', ready (ok tt)))
      × (header_link_name_bytes h' ≡ some (join (n ∷ ns)))
      × IsBlock h'
      × ((q : Part) → Apart q linkname → get q h' ≡ get q h)
unfolding set_link_name
link_name_bytes-set_link_name n ns h names block le =
    let text = join (n ∷ ns) in
    let room = length-get linkname h block (omega arith) in
    let (rest, stored, e, same) =
      copied linkname setting_link_name true n ns h names (omega (arith, room, le)) in
    let wide : length (text ++ rest) ≡ 100 = same ∙ room in
    let field = get-put linkname (text ++ rest) h block (omega arith) wide in
    let no_nul = join_no_nul (n ∷ ns) names in
    (
      put linkname (text ++ rest) h,
      stored,
      link_name_field (put linkname (text ++ rest) h) text
          (subst (λ (t : Bytes). get_or t 0 0 ≢ 0) (sym field)
            (first_byte text rest (length-join_pos n ns names.0) no_nul))
          (ap truncate field ∙ truncate-append_end text rest no_nul e),
      put-IsBlock linkname (text ++ rest) h block,
      λ q apart. get-put-Apart q linkname (text ++ rest) h apart wide,
    )
