-- ===== src/Header/PathLaws.antt =====
-- src/header.rs: names joined by slashes, as `copy_path_into` stores them.
use async_tar_rs.Base.{
  ℕ, ◌+◌, ◌≤◌, ◌≡◌, refl, sym, ap, ◌∙◌, Bool, true, false, List, [], ◌∷◌, ◌++◌, map, Bytes, All,
  any, length, length-append, take, drop, ◌==◌, arith,
}
use async_tar_rs.Base.Slots.{bytes_eq, overlay, length-overlay}
use async_tar_rs.Base.Result.{ok}
use async_tar_rs.Poll.{ready}
use async_tar_rs.Text.Paths.{Component, normal, slash}
use async_tar_rs.Text.Paths.Join.{IsName, NoSlash, join, components-join, ends_with_slash-join}
use async_tar_rs.Codec.{truncate, copy_into}
use async_tar_rs.Codec.Names.{any_nul, truncate-nul, truncate_full}
use async_tar_rs.Header.Paths.{
  Slot, copy_on, emit, emit_bytes, mark, copy_component, copy_components, copy_all, end_path,
  copy_path_into, one_of,
}
use mathlib.Core.List.{append_assoc, append-nil}

-- What is left of a slot behind a text: nothing, or a NUL and more.
abbrev pub IsEnd : Bytes → Type 0
IsEnd [] = Unit {0}
IsEnd (b ∷ rest) = b ≡ 0

pub truncate-append_end :
    (text rest : Bytes) → All (λ b. 1 ≤ b) text → IsEnd rest → truncate (text ++ rest) ≡ text
truncate-append_end text [] h e = ap truncate (append-nil text) ∙ truncate_full text h
truncate-append_end text (b ∷ rest) h e =
    ap (λ (k : ℕ). truncate (text ++ k ∷ rest)) e ∙ truncate-nul text rest h

take_stored :
    (slot bytes : Bytes)
    → length bytes ≤ length slot
    → take (length bytes) (overlay slot (bytes ++ 0 ∷ [])) ≡ bytes
unfolding overlay take
take_stored slot [] h = refl
take_stored [] (b ∷ bytes) h = absurd (omega arith)
take_stored (x ∷ slot) (b ∷ bytes) h = ap (◌∷◌ b) (take_stored slot bytes (omega arith))

drop_stored :
    (slot bytes : Bytes)
    → length bytes ≤ length slot
    → IsEnd (drop (length bytes) (overlay slot (bytes ++ 0 ∷ [])))
      × (length (drop (length bytes) (overlay slot (bytes ++ 0 ∷ []))) + length bytes ≡ length slot)
unfolding overlay drop
drop_stored [] [] h = (tt, omega arith)
drop_stored (x ∷ slot) [] h = (refl, omega (arith, length-overlay slot []))
drop_stored [] (b ∷ bytes) h = absurd (omega arith)
drop_stored (x ∷ slot) (b ∷ bytes) h =
    let (end, same) = drop_stored slot bytes (omega arith) in (end, omega (arith, same))

abbrev pub at : Bytes → Bytes → Bool → Bool → Slot
at front rest needs_slash emitted = record {
  front = front;
  rest = rest;
  needs_slash = needs_slash;
  emitted = emitted;
}

pub copy_on_lem :
    (bytes front rest : Bytes) (needs emitted : Bool)
    → All (λ b. 1 ≤ b) bytes
    → length bytes ≤ length rest
    → (rest' : Bytes) × (copy_on bytes (at front rest needs emitted)
        ≡ (at (front ++ bytes) rest' needs emitted, ready (ok tt)))
      × IsEnd rest'
      × (length rest' + length bytes ≡ length rest)
unfolding copy_on
copy_on_lem bytes front rest needs emitted h le =
    let stored : copy_into rest bytes ≡ ok (overlay rest (bytes ++ 0 ∷ [])) =
      unfold copy_into in ground (arith, any_nul bytes h) in
    let (end, same) = drop_stored rest bytes le in
    (
      drop (length bytes) (overlay rest (bytes ++ 0 ∷ [])),
      ground (arith, stored, take_stored rest bytes le),
      end,
      same,
    )

pub NoSlash-in : (n : Bytes) → NoSlash n → any (λ b. b == slash) n ≡ false
NoSlash-in [] h = refl
NoSlash-in (b ∷ n) (hb, h) = ground (arith, NoSlash-in n h)

not_slash : (n : Bytes) → NoSlash n → bytes_eq n (slash ∷ []) ≡ false
not_slash [] h = refl
not_slash (b ∷ []) (hb, h) = ground arith
not_slash (b ∷ c ∷ n) (hb, h) = ground arith

module _ (n : Bytes) (h : IsName n) (front rest : Bytes) where
  pub emit_first :
      (emitted : Bool)
      → length n ≤ length rest
      → (rest' : Bytes) × (emit (normal n) (at front rest false emitted)
          ≡ (at (front ++ n) rest' true true, ready (ok tt)))
        × IsEnd rest'
        × (length rest' + length n ≡ length rest)
  unfolding emit emit_bytes mark
  emit_first emitted le =
      let (rest', copied, end, same) = copy_on_lem n front rest false emitted h.no_nul le in
      (rest', rw (NoSlash-in n h.no_slash, copied, not_slash n h.no_slash) refl, end, same)

  pub emit_next :
      (emitted : Bool)
      → length n + 1 ≤ length rest
      → (rest' : Bytes) × (emit (normal n) (at front rest true emitted)
          ≡ (at (front ++ slash ∷ n) rest' true true, ready (ok tt)))
        × IsEnd rest'
        × (length rest' + length n + 1 ≡ length rest)
  unfolding emit emit_bytes mark
  emit_next emitted le =
      let (r1, slashed, end1, same1) =
        copy_on_lem (slash ∷ []) front rest true emitted (omega arith) (omega arith) in
      let (rest', copied, end, same) =
        copy_on_lem n (front ++ slash ∷ []) r1 true emitted h.no_nul (omega (arith, same1)) in
      (
        rest',
        rw (slashed, NoSlash-in n h.no_slash, copied, not_slash n h.no_slash)
            (ap (λ (t : Bytes). (at t rest' true true, ready (ok tt)))
              (append_assoc front (slash ∷ []) n)),
        end,
        omega (arith, same1, same),
      )

pub copy_component_name :
    (is_link single : Bool) (n : Bytes) → copy_component is_link single (normal n) ≡ emit (normal n)
unfolding copy_component
copy_component_name true single n = refl
copy_component_name false single n = refl

-- The names that follow the first one, each behind its slash.
abbrev pub tail_of : List Bytes → Bytes
tail_of [] = []
tail_of (n ∷ ns) = slash ∷ (n ++ tail_of ns)

pub join-cons : (n : Bytes) (ns : List Bytes) → join (n ∷ ns) ≡ n ++ tail_of ns
unfolding join
join-cons n [] = sym (append-nil n)
join-cons n (m ∷ ns) = ap (λ (t : Bytes). n ++ slash ∷ t) (join-cons m ns)

module _ (is_link single : Bool) where
  pub copy_components_step :
      (c : Component) (cs : List Component) (s s' : Slot)
      → copy_component is_link single c s ≡ (s', ready (ok tt))
      → copy_components is_link single (c ∷ cs) s ≡ copy_components is_link single cs s'
  unfolding copy_components
  copy_components_step c cs s s' e = rw e refl

  copy_rest :
      (ns : List Bytes) (front rest : Bytes)
      → All IsName ns
      → IsEnd rest
      → length (tail_of ns) ≤ length rest
      → (rest' : Bytes) × (copy_components is_link single (map normal ns) (at front rest true true)
          ≡ (at (front ++ tail_of ns) rest' true true, ready (ok tt)))
        × IsEnd rest'
        × (length rest' + length (tail_of ns) ≡ length rest)
  copy_rest [] front rest h e le = (
    rest,
    unfold copy_components in
        ap (λ (t : Bytes). (at t rest true true, ready (ok tt))) (sym (append-nil front)),
    e,
    omega arith,
  )
  copy_rest (n ∷ ns) front rest (h, hs) e le =
      let long = length-append n (tail_of ns) in
      let (r1, emitted, e1, same1) = emit_next n h front rest true (omega (arith, long, le)) in
      let (rest', copied, e', same) =
        copy_rest ns (front ++ slash ∷ n) r1 hs e1 (omega (arith, long, le, same1)) in
      (
        rest',
        copy_components_step (normal n) (map normal ns) (at front rest true true) _
              (rw (copy_component_name is_link single n) emitted)
            ∙ copied
            ∙ ap (λ (t : Bytes). (at t rest' true true, ready (ok tt)))
                (append_assoc front (slash ∷ n) (tail_of ns)),
        e',
        omega (arith, long, same1, same),
      )

module _ (n : Bytes) (ns : List Bytes) (h : All IsName (n ∷ ns)) (slot : Bytes) (is_link : Bool)
    (le : length (join (n ∷ ns)) ≤ length slot) where
  copy_all-join :
      (rest : Bytes) × (copy_all (join (n ∷ ns)) is_link (at [] slot false false)
        ≡ (at (join (n ∷ ns)) rest true true, ready (ok tt)))
      × IsEnd rest
      × (length rest + length (join (n ∷ ns)) ≡ length slot)
  unfolding copy_all end_path
  copy_all-join =
      let cons = join-cons n ns in
      let long = ap (λ (t : Bytes). length t) cons ∙ length-append n (tail_of ns) in
      let (r1, emitted, e1, same1) = emit_first n h.0 [] slot false (omega (arith, long, le)) in
      let (rest, copied, e, same) =
        copy_rest is_link (one_of (map normal (n ∷ ns))) ns n r1 h.1 e1
          (omega (arith, long, le, same1)) in
      let copied_all : copy_components is_link (one_of (map normal (n ∷ ns))) (map normal (n ∷ ns))
            (at [] slot false false)
          ≡ (at (n ++ tail_of ns) rest true true, ready (ok tt)) =
        copy_components_step is_link (one_of (map normal (n ∷ ns))) (normal n) (map normal ns)
          (at [] slot false false) _
          (rw (copy_component_name is_link (one_of (map normal (n ∷ ns))) n) emitted)
        ∙ copied in
      (
        rest,
        rw (components-join (n ∷ ns) h, copied_all, ends_with_slash-join (n ∷ ns) h)
            (ap (λ (t : Bytes). (at t rest true true, ready (ok tt))) (sym cons)),
        e,
        omega (arith, long, same1, same),
      )

  -- Names joined by slashes that are no longer than the slot are stored as they are, with a NUL
  -- behind them where there is room.
  pub copy_path_into-join :
      (rest : Bytes) × (copy_path_into slot (join (n ∷ ns)) is_link
        ≡ (join (n ∷ ns) ++ rest, ready (ok tt)))
      × IsEnd rest
      × (length rest + length (join (n ∷ ns)) ≡ length slot)
  copy_path_into-join =
      let (rest, copied, e, same) = copy_all-join in
      (rest, unfold copy_path_into in rw copied refl, e, same)
