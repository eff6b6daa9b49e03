-- ===== src/Header/Owner.antt =====
-- src/header.rs: the names of owner and group, in the two formats that hold them.
use async_tar_rs.Base.{
  ◌≤◌, ◌≡◌, refl, sym, ap, ◌∙◌, true, ◌||◌, some, Bytes, All, length, arith, inl, inr,
}
use async_tar_rs.Base.Result.{ok, map_ok, map_err, when, setting_username}
use async_tar_rs.Codec.{truncate, copy_into}
use async_tar_rs.Codec.Names.{truncate-copy_into}
use async_tar_rs.Header.{
  Header, Part, get, put, is_ustar, is_gnu, as_ustar, as_gnu, magic, version, uname, gname,
  username_bytes, set_username, groupname_bytes, in_format,
}
use async_tar_rs.Header.Laws.{IsBlock, length-get, get-put, get-put-Apart}
use mathlib.Core.Path.{ap₂}

-- The format does not change with a field behind the version.
module _ (p : Part) (vals : Bytes) (h : Header) (behind : 265 ≤ p.off)
    (e : length vals ≡ p.len) where
  is_ustar-put : is_ustar (put p vals h) ≡ is_ustar h
  unfolding is_ustar
  is_ustar-put =
      rw
        (
          get-put-Apart magic p vals h (inl (omega (arith, behind))) e,
          get-put-Apart version p vals h (inl (omega (arith, behind))) e,
        )
        refl

  is_gnu-put : is_gnu (put p vals h) ≡ is_gnu h
  unfolding is_gnu
  is_gnu-put =
      rw
        (
          get-put-Apart magic p vals h (inl (omega (arith, behind))) e,
          get-put-Apart version p vals h (inl (omega (arith, behind))) e,
        )
        refl

in_format-known :
    {A : Type 0} (h : Header) (f : Header → A) (otherwise : A)
    → (is_ustar h || is_gnu h) ≡ true
    → in_format h f f otherwise ≡ f h
unfolding as_ustar as_gnu
in_format-known h f otherwise e = ground (arith, e)

module _ (n : Bytes) (h : Header) (b : IsBlock h) (no_nul : All (λ c. 1 ≤ c) n)
    (fits : length n ≤ 32) where
  username-set_as :
      (slot : Bytes)
      → (is_ustar h || is_gnu h) ≡ true
      → copy_into (get uname h) n ≡ ok slot
      → length slot ≡ 32
      → (set_username n h ≡ ok (put uname slot h))
        × (username_bytes (put uname slot h) ≡ some (truncate slot))
        × (groupname_bytes (put uname slot h) ≡ groupname_bytes h)
  unfolding set_username username_bytes groupname_bytes
  username-set_as slot known stored l =
      let own : get uname (put uname slot h) ≡ slot = get-put uname slot h b (omega arith) l in
      let other : get gname (put uname slot h) ≡ get gname h =
        get-put-Apart gname uname slot h (inr (omega arith)) l in
      let u = is_ustar-put uname slot h (omega arith) l in
      let g = is_gnu-put uname slot h (omega arith) l in
      let known' : (is_ustar (put uname slot h) || is_gnu (put uname slot h)) ≡ true =
        ap₂ (◌||◌) u g ∙ known in
      (
        in_format-known h _ _ known
            ∙ ap (λ r. map_err (when setting_username) (map_ok (λ v. put uname v h) r)) stored,
        in_format-known (put uname slot h) _ _ known' ∙ ap (λ v. some (truncate v)) own,
        in_format-known (put uname slot h) _ _ known'
            ∙ ap (λ v. some (truncate v)) other
            ∙ sym (in_format-known h _ _ known),
      )

  -- A user name without NUL, of up to 32 bytes, can be set on a header of 512 bytes in the UStar
  -- or the GNU format; it is read back, and the name of the group is what it was.
  pub username_bytes-set_username :
      (is_ustar h || is_gnu h) ≡ true
      → (h' : Header) × (set_username n h ≡ ok h')
        × (username_bytes h' ≡ some n)
        × (groupname_bytes h' ≡ groupname_bytes h)
  username_bytes-set_username known =
      let wide = length-get uname h b (omega arith) in
      let (slot, stored, back, l) =
        truncate-copy_into (get uname h) n no_nul (omega (arith, wide, fits)) in
      let (set, got, kept) = username-set_as slot known stored (l ∙ wide) in
      (put uname slot h, set, got ∙ ap (λ t. some t) back, kept)
