-- ===== src/Header/PathKeeps.antt =====
-- src/header.rs, `copy_path_into`: whatever its outcome, a field keeps its length and holds bytes.
use async_tar_rs.Base.{
  ℕ, ◌+◌, ◌≤◌, ◌≡◌, refl, sym, ap, ◌∙◌, ◌⊎◌, inl, inr, Bool, true, false, List, [], ◌∷◌, ◌++◌, map,
  Bytes, All, All-append, any, length, length-append, length-take, length-drop, take, drop, ltb,
  ◌==◌, Bool-cases, arith, subst,
}
use async_tar_rs.Base.Slots.{bytes_eq, overlay, length-overlay}
use async_tar_rs.Base.Result.{
  ok, err, Error, other, value_too_long, value_has_nul, path_has_slash, path_empty,
}
use async_tar_rs.Poll.{Outcome, ready, M, after, after_keeps}
use async_tar_rs.Text.Paths.{Component, normal, slash, as_os_str, components, ends_with_slash}
use async_tar_rs.Text.Paths.Join.{IsName, join, components-join}
use async_tar_rs.Codec.{copy_into}
use async_tar_rs.Header.ChecksumLaws.{IsByte, take-All, drop-All}
use async_tar_rs.Header.Sealed.{overlay-IsByte}
use async_tar_rs.Header.Paths.{
  Slot, copy_on, emit, emit_bytes, mark, copy_component, copy_components, copy_all, copy_path_into,
  end_path, one_of,
}
use async_tar_rs.Header.PathLaws.{copy_component_name}

abbrev IsKept : ℕ → Slot → Type 0
IsKept n s = (length s.front + length s.rest ≡ n) × All IsByte s.front × All IsByte s.rest

-- What `copy_into` makes of a slot, if anything.
copy_into_cases :
    (rest bytes : Bytes)
    → ((copy_into rest bytes ≡ ok (overlay rest (bytes ++ 0 ∷ []))) × (length bytes ≤ length rest))
      ⊎ ((e : Error) × (copy_into rest bytes ≡ err e))
unfolding copy_into
copy_into_cases rest bytes = elim (Bool-cases (ltb (length rest) (length bytes))) [
  | inl short ↦ inr (other value_too_long, rw short refl)
  | inr room ↦ elim (Bool-cases (any (λ b. b == 0) bytes)) [
    | inl nul ↦ inr (other value_has_nul, rw (room, nul) refl)
    | inr none_ ↦ inl (rw (room, none_) refl, ground arith)
  ]
]

copy_on_stored :
    (bytes : Bytes) (s : Slot)
    → copy_into s.rest bytes ≡ ok (overlay s.rest (bytes ++ 0 ∷ []))
    → copy_on bytes s ≡ (
      record s {
        front = s.front ++ take (length bytes) (overlay s.rest (bytes ++ 0 ∷ []));
        rest = drop (length bytes) (overlay s.rest (bytes ++ 0 ∷ []));
      },
      ready (ok tt),
    )
unfolding copy_on
copy_on_stored bytes s stored = ground (arith, stored)

copy_on_refused :
    (bytes : Bytes) (s : Slot) (e : Error)
    → copy_into s.rest bytes ≡ err e
    → copy_on bytes s ≡ (s, ready (err e))
unfolding copy_on
copy_on_refused bytes s e refused = ground (arith, refused)

module _ (n : ℕ) where
  abbrev Keeps : M Slot (Unit {0}) → Type 0
  Keeps m = (s : Slot) → IsKept n s → IsKept n (m s).0

  as-IsKept : (x y : Slot × Outcome (Unit {0})) → x ≡ y → IsKept n y.0 → IsKept n x.0
  as-IsKept x y e k = subst (λ (z : Slot × Outcome (Unit {0})). IsKept n z.0) (sym e) k

  copy_on_keeps : (bytes : Bytes) → All IsByte bytes → Keeps (copy_on bytes)
  copy_on_keeps bytes hb s (l, hf, hr) = elim (copy_into_cases s.rest bytes) [
    | inr (e, refused) ↦
        as-IsKept (copy_on bytes s) (s, ready (err e)) (copy_on_refused bytes s e refused)
          (l, hf, hr)
    | inl (stored, room) ↦
        let slot : Bytes = overlay s.rest (bytes ++ 0 ∷ []) in
        let h : All IsByte slot =
          overlay-IsByte s.rest (bytes ++ 0 ∷ []) hr
            (All-append IsByte bytes (0 ∷ []) hb (omega arith)) in
        let long : length slot ≡ length s.rest = length-overlay s.rest (bytes ++ 0 ∷ []) in
        as-IsKept (copy_on bytes s)
          (
            record s {
              front = s.front ++ take (length bytes) slot;
              rest = drop (length bytes) slot;
            },
            ready (ok tt),
          )
          (copy_on_stored bytes s stored)
          (
            omega (
              arith,
              l,
              long,
              room,
              length-append s.front (take (length bytes) slot),
              length-take (length bytes) slot,
              length-drop (length bytes) slot,
            ),
            All-append IsByte s.front (take (length bytes) slot) hf
                (take-All IsByte (length bytes) slot h),
            drop-All IsByte (length bytes) slot h,
          )
  ]

  mark_keeps : (c : Component) → Keeps (mark c)
  unfolding mark
  mark_keeps c s k = elim (Bool-cases (bytes_eq (as_os_str c) (slash ∷ []))) [
    | inl y ↦ as-IsKept (mark c s) (record s { emitted = true }, ready (ok tt)) (rw y refl) k
    | inr y ↦
        as-IsKept (mark c s) (record s { needs_slash = true; emitted = true }, ready (ok tt))
          (rw y refl) k
  ]

  emit_bytes_keeps : (m : Bytes) → All IsByte m → Keeps (emit_bytes (normal m))
  emit_bytes_keeps m hm s k = elim (Bool-cases (any (λ b. b == slash) m)) [
    | inl y ↦
        as-IsKept (emit_bytes (normal m) s) (s, ready (err (other path_has_slash)))
          (unfold emit_bytes in rw y refl) k
    | inr y ↦
        as-IsKept (emit_bytes (normal m) s) (after (λ _. mark (normal m)) (copy_on m s))
          (unfold emit_bytes in rw y refl)
          (after_keeps (IsKept n) (λ _. mark (normal m)) (copy_on m s) (copy_on_keeps m hm s k)
            (λ _ s' k'. mark_keeps (normal m) s' k'))
  ]

  emit_keeps : (m : Bytes) → All IsByte m → Keeps (emit (normal m))
  emit_keeps m hm s k = elim (Bool-cases s.needs_slash) [
    | inl y ↦
        as-IsKept (emit (normal m) s) (after (λ _. emit_bytes (normal m)) (copy_on (slash ∷ []) s))
          (unfold emit in rw y refl)
          (after_keeps (IsKept n) (λ _. emit_bytes (normal m)) (copy_on (slash ∷ []) s)
            (copy_on_keeps (slash ∷ []) (omega arith) s k) (λ _ s' k'. emit_bytes_keeps m hm s' k'))
    | inr y ↦
        as-IsKept (emit (normal m) s) (emit_bytes (normal m) s) (unfold emit in rw y refl)
          (emit_bytes_keeps m hm s k)
  ]

  copy_components_keeps :
      (is_link single : Bool) (ns : List Bytes)
      → All (All IsByte) ns
      → Keeps (copy_components is_link single (map normal ns))
  unfolding copy_components
  copy_components_keeps is_link single [] h s k = k
  copy_components_keeps is_link single (m ∷ ns) (hm, h) s k =
      after_keeps (IsKept n) (λ _. copy_components is_link single (map normal ns))
        (copy_component is_link single (normal m) s)
        (as-IsKept (copy_component is_link single (normal m) s) (emit (normal m) s)
          (ap (λ (f : M Slot (Unit {0})). f s) (copy_component_name is_link single m))
          (emit_keeps m hm s k))
        (λ _ s' k'. copy_components_keeps is_link single ns h s' k')

  end_path_keeps : (path : Bytes) → Keeps (end_path path)
  end_path_keeps path s k = elim (Bool-cases s.emitted) [
    | inr y ↦
        as-IsKept (end_path path s) (s, ready (err (other path_empty)))
          (unfold end_path in rw y refl) k
    | inl y ↦ elim (Bool-cases (ends_with_slash path)) [
      | inr z ↦ as-IsKept (end_path path s) (s, ready (ok tt)) (unfold end_path in rw (y, z) refl) k
      | inl z ↦
          as-IsKept (end_path path s) (copy_on (slash ∷ []) s) (unfold end_path in rw (y, z) refl)
            (copy_on_keeps (slash ∷ []) (omega arith) s k)
    ]
  ]

-- The path is names joined by slashes; the slot may be too short for it.
pub copy_path_into-IsByte :
    (slot : Bytes) (ns : List Bytes) (is_link : Bool)
    → All IsName ns
    → All (All IsByte) ns
    → All IsByte slot
    → (length (copy_path_into slot (join ns) is_link).0 ≡ length slot)
      × All IsByte (copy_path_into slot (join ns) is_link).0
unfolding copy_path_into copy_all
copy_path_into-IsByte slot ns is_link names h hs =
    let start : Slot = record { front = []; rest = slot; needs_slash = false; emitted = false } in
    let path = join ns in
    let single = one_of (components path) in
    let copied : IsKept (length slot) (copy_components is_link single (components path) start).0 =
      subst (λ cs. IsKept (length slot) (copy_components is_link single cs start).0)
        (sym (components-join ns names))
        (copy_components_keeps (length slot) is_link single ns h start (omega arith, tt, hs)) in
    let (l, hf, hr) =
      after_keeps (IsKept (length slot)) (λ _. end_path path)
        (copy_components is_link single (components path) start) copied
        (λ _ s' k'. end_path_keeps (length slot) path s' k') in
    (length-append _ _ ∙ l, All-append IsByte _ _ hf hr)
