-- ===== src/Header/PathLimits.antt =====
-- src/header.rs, `copy_path_into` on paths that are longer than the slot.
use async_tar_rs.Base.{
  ◌+◌, ◌<◌, ◌≡◌, refl, ap, ◌∙◌, Bool, true, false, List, [], ◌∷◌, ◌++◌, map, Bytes, All, length,
  length-append, ltb, Bool-cases, inl, inr, arith,
}
use async_tar_rs.Base.Result.{err, other, value_too_long}
use async_tar_rs.Poll.{Outcome, ready, after-err}
use async_tar_rs.Text.Paths.{Component, normal, slash}
use async_tar_rs.Text.Paths.Join.{IsName, join, components-join}
use async_tar_rs.Codec.{copy_into}
use async_tar_rs.Header.Paths.{
  Slot, copy_on, emit, emit_bytes, mark, copy_components, copy_all, copy_path_into, end_path,
  one_of,
}
use async_tar_rs.Header.PathLaws.{
  at, copy_on_lem, emit_first, emit_next, copy_component_name, copy_components_step, join-cons,
  tail_of, NoSlash-in,
}

-- The copy stops as the slot is too short.
abbrev pub Overflows : Slot × Outcome (Unit {0}) → Type 0
Overflows x = x.1 ≡ ready (err (other value_too_long))

copy_on_long :
    (bytes : Bytes) (s : Slot)
    → length s.rest < length bytes
    → copy_on bytes s ≡ (s, ready (err (other value_too_long)))
unfolding copy_on copy_into
copy_on_long bytes s lt = ground arith

module _ (n : Bytes) (h : IsName n) (front rest : Bytes) where
  emit_first_long : length rest < length n → Overflows (emit (normal n) (at front rest false false))
  unfolding emit emit_bytes mark
  emit_first_long lt =
      rw (NoSlash-in n h.no_slash, copy_on_long n (at front rest false false) lt) refl

  emit_next_long :
      length rest < length n + 1 → Overflows (emit (normal n) (at front rest true true))
  unfolding emit emit_bytes mark
  emit_next_long lt = elim (Bool-cases (ltb (length rest) 1)) [
    | inl short ↦ rw (copy_on_long (slash ∷ []) (at front rest true true) (ground arith)) refl
    | inr room ↦
        let (r1, slashed, end1, same1) =
          copy_on_lem (slash ∷ []) front rest true true (omega arith) (ground arith) in
        rw
          (
            slashed,
            NoSlash-in n h.no_slash,
            copy_on_long n (at (front ++ slash ∷ []) r1 true true) (omega (arith, same1)),
          )
          refl
  ]

module _ (is_link single : Bool) where
  copy_components_stop :
      (n : Bytes) (cs : List Component) (s : Slot)
      → Overflows (emit (normal n) s)
      → Overflows (copy_components is_link single (normal n ∷ cs) s)
  unfolding copy_components
  copy_components_stop n cs s e = rw (copy_component_name is_link single n) (
      after-err (λ _. copy_components is_link single cs) (emit (normal n) s) (other value_too_long)
        e)

  copy_rest_long :
      (ns : List Bytes) (front rest : Bytes)
      → All IsName ns
      → length rest < length (tail_of ns)
      → Overflows (copy_components is_link single (map normal ns) (at front rest true true))
  copy_rest_long [] front rest h lt = absurd (omega arith)
  copy_rest_long (n ∷ ns) front rest (h, hs) lt =
      elim (Bool-cases (ltb (length rest) (length n + 1))) [
        | inl short ↦
            copy_components_stop n (map normal ns) (at front rest true true)
              (emit_next_long n h front rest (ground arith))
        | inr room ↦
            let (r1, emitted, e1, same1) = emit_next n h front rest true (ground arith) in
            ap (λ (x : Slot × Outcome (Unit {0})). x.1)
              (copy_components_step is_link single (normal n) (map normal ns)
                (at front rest true true) (at (front ++ slash ∷ n) r1 true true)
                (rw (copy_component_name is_link single n) emitted))
            ∙ copy_rest_long ns (front ++ slash ∷ n) r1 hs
                (omega (arith, same1, length-append n (tail_of ns)))
      ]

module _ (n : Bytes) (ns : List Bytes) (h : All IsName (n ∷ ns)) (slot : Bytes) (is_link : Bool)
    (lt : length slot < length (join (n ∷ ns))) where
  copy_components_long :
      (single : Bool)
      → Overflows (copy_components is_link single (map normal (n ∷ ns)) (at [] slot false false))
  copy_components_long single = elim (Bool-cases (ltb (length slot) (length n))) [
    | inl short ↦
        copy_components_stop is_link single n (map normal ns) (at [] slot false false)
          (emit_first_long n h.0 [] slot (ground arith))
    | inr room ↦
        let (r1, emitted, e1, same1) = emit_first n h.0 [] slot false (ground arith) in
        ap (λ (x : Slot × Outcome (Unit {0})). x.1)
          (copy_components_step is_link single (normal n) (map normal ns) (at [] slot false false)
            (at n r1 true true) (rw (copy_component_name is_link single n) emitted))
        ∙ copy_rest_long is_link single ns n r1 h.1 (
            omega (
              arith,
              same1,
              ap (λ (t : Bytes). length t) (join-cons n ns),
              length-append n (tail_of ns),
              lt,
            ))
  ]

  -- Names joined by slashes that are longer than the slot are refused.
  pub copy_path_into_long :
      (copy_path_into slot (join (n ∷ ns)) is_link).1 ≡ ready (err (other value_too_long))
  unfolding copy_path_into copy_all
  copy_path_into_long = rw (components-join (n ∷ ns) h) (
      after-err (λ _. end_path (join (n ∷ ns)))
        (copy_components is_link (one_of (map normal (n ∷ ns))) (map normal (n ∷ ns))
          (at [] slot false false))
        (other value_too_long) (copy_components_long (one_of (map normal (n ∷ ns)))))
