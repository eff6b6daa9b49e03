-- ===== src/Header/UstarPath.antt =====
-- src/header.rs, `UstarHeader::set_path`: a path that is split into the prefix and the name.
use async_tar_rs.Base.{
  ℕ, zero, suc, ◌≤◌, ◌<◌, ◌≡◌, refl, sym, ap, ◌∙◌, ◌⊎◌, inl, inr, some, List, [], ◌∷◌, ◌++◌, Bytes,
  All, length, length-append, leb, subst, if◌then◌else◌, arith,
}
use async_tar_rs.Base.Result.{ok}
use async_tar_rs.Text.Paths.{slash, parent}
use async_tar_rs.Text.Paths.Join.{IsName, join}
use async_tar_rs.Text.Paths.Parents.{join-append, parent-join, length-join-cons}
use async_tar_rs.Header.Paths.{find_prefix}
use mathlib.Core.List.{append_assoc}

-- The last name of a list that is not empty.
snoc :
    {A : Type 0} (x : A) (xs : List A)
    → (init : List A) × (l : A) × (x ∷ xs ≡ init ++ (l ∷ [])) × (length init ≡ length xs)
snoc x [] = ([], x, refl, refl)
snoc x (y ∷ xs) = let (init, l, e, n) = snoc y xs in (x ∷ init, l, ap (◌∷◌ x) e, ap suc n)

pub All-split {ℓ κ} :
    {A : Type ℓ} (P : A → Type κ) (xs ys : List A) → All P (xs ++ ys) → All P xs × All P ys
All-split P [] ys h = (tt, h)
All-split P (x ∷ xs) ys (hx, h) = let (l, r) = All-split P xs ys h in ((hx, l), r)

find_prefix_step :
    (fuel : ℕ) (path up : Bytes)
    → parent path ≡ some up
    → find_prefix (suc fuel) path ≡ (if leb (length up) 155 then ok up else find_prefix fuel up)
unfolding find_prefix
find_prefix_step fuel path up e = rw (e, find_prefix) refl

one : (b : Bytes) → length (join (b ∷ [])) ≡ length b
unfolding join
one b = refl

-- Longer lists of names are longer paths.
length-join_mono :
    (f b : Bytes) (fs bs : List Bytes)
    → length (join ((f ∷ fs) ++ (b ∷ []))) ≤ length (join ((f ∷ fs) ++ (b ∷ bs)))
length-join_mono f b fs [] = omega arith
length-join_mono f b fs (c ∷ bs) = omega (
  arith,
  ap (λ (t : Bytes). length t) (join-append f b fs []),
  ap (λ (t : Bytes). length t) (join-append f b fs (c ∷ bs)),
  length-append (join (f ∷ fs)) (slash ∷ join (b ∷ [])),
  length-append (join (f ∷ fs)) (slash ∷ join (b ∷ c ∷ bs)),
  length-join-cons b c bs,
  one b,
)

module _ (f b : Bytes) (fs : List Bytes) (le : length (join (f ∷ fs)) ≤ 155) where
  find_one :
      (fuel : ℕ)
      → All IsName ((f ∷ fs) ++ (b ∷ []))
      → find_prefix (suc fuel) (join ((f ∷ fs) ++ (b ∷ []))) ≡ ok (join (f ∷ fs))
  find_one fuel names =
      let (front, last) = All-split IsName (f ∷ fs) (b ∷ []) names in
      find_prefix_step fuel (join ((f ∷ fs) ++ (b ∷ []))) (join (f ∷ fs))
        (parent-join f b fs front last.0)
      ∙ ground arith

  find_long :
      (fuel : ℕ) (back : List Bytes)
      → All IsName ((f ∷ fs) ++ (b ∷ back))
      → 155 < length (join ((f ∷ fs) ++ (b ∷ [])))
      → length back < fuel
      → find_prefix fuel (join ((f ∷ fs) ++ (b ∷ back))) ≡ ok (join (f ∷ fs))
  find_long zero back names lt enough = absurd (omega arith)
  find_long (suc fuel) [] names lt enough = find_one fuel names
  find_long (suc fuel) (c ∷ cs) names lt enough =
      let (init, l, e, n) = snoc c cs in
      let whole : (f ∷ fs) ++ (b ∷ c ∷ cs) ≡ (f ∷ (fs ++ (b ∷ init))) ++ (l ∷ []) =
        ap (λ (t : List Bytes). (f ∷ fs) ++ (b ∷ t)) e
        ∙ sym (append_assoc (f ∷ fs) (b ∷ init) (l ∷ [])) in
      let (front, last) =
        All-split IsName (f ∷ (fs ++ (b ∷ init))) (l ∷ []) (subst (All IsName) whole names) in
      ap (λ (t : List Bytes). find_prefix (suc fuel) (join t)) whole
      ∙ find_prefix_step fuel (join ((f ∷ (fs ++ (b ∷ init))) ++ (l ∷ [])))
          (join ((f ∷ fs) ++ (b ∷ init))) (parent-join f l (fs ++ (b ∷ init)) front last.0)
      ∙ ground (arith, length-join_mono f b fs init, lt)
      ∙ find_long fuel init front lt (omega (arith, n))

  -- The longest ancestor of at most 155 bytes is found.
  pub find_prefix-join :
      (fuel : ℕ) (back : List Bytes)
      → All IsName ((f ∷ fs) ++ (b ∷ back))
      → (back ≡ []) ⊎ (155 < length (join ((f ∷ fs) ++ (b ∷ []))))
      → length back < fuel
      → find_prefix fuel (join ((f ∷ fs) ++ (b ∷ back))) ≡ ok (join (f ∷ fs))
  find_prefix-join zero back names longest enough = absurd (omega arith)
  find_prefix-join (suc fuel) [] names longest enough = find_one fuel names
  find_prefix-join (suc fuel) (c ∷ cs) names (inl none_left) enough = cc
  find_prefix-join (suc fuel) (c ∷ cs) names (inr lt) enough =
      find_long (suc fuel) (c ∷ cs) names lt enough
