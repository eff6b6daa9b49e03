-- ===== src/Text/Paths/Parents.antt =====
-- `Path::parent` on names joined by slashes: the last name goes.
use async_tar_rs.Base.{
  ℕ, ◌+◌, ◌≡◌, refl, Bool, All-append, take-append, sym, ap, ◌∙◌, false, true, not, some, List, [],
  ◌∷◌, ◌++◌, Bytes, All, length, length-append, take, reverse, arith,
}
use async_tar_rs.Text.Paths.{slash, split, is_absolute, ends, up_to, parent}
use async_tar_rs.Text.Paths.Join.{IsName, join, split-join, is_absolute-join, counts_name}
use mathlib.Core.Path.{ap₂}
use mathlib.Core.List.{append_assoc, reverse-append}

-- Joined lists of names.
pub join-append :
    (n m : Bytes) (ns ms : List Bytes)
    → join ((n ∷ ns) ++ (m ∷ ms)) ≡ join (n ∷ ns) ++ (slash ∷ join (m ∷ ms))
unfolding join
join-append n m [] ms = refl
join-append n m (o ∷ ns) ms =
    ap (λ (t : Bytes). n ++ (slash ∷ t)) (join-append o m ns ms)
    ∙ sym (append_assoc n (slash ∷ join (o ∷ ns)) (slash ∷ join (m ∷ ms)))

pub length-join-cons :
    (n m : Bytes) (ms : List Bytes)
    → length (join (n ∷ m ∷ ms)) ≡ length n + 1 + length (join (m ∷ ms))
unfolding join
length-join-cons n m ms = omega (arith, length-append n (slash ∷ join (m ∷ ms)))

-- Where the last two names end.
ends_two :
    (start : Bool) (off : ℕ) (n m : Bytes) (ns : List Bytes)
    → All IsName (n ∷ ns)
    → IsName m
    → (front : List ℕ) × (ends start off ((n ∷ ns) ++ (m ∷ []))
        ≡ front
          ++ ((off + length (join (n ∷ ns))) ∷ (off + length (join ((n ∷ ns) ++ (m ∷ [])))) ∷ []))
unfolding ends join
ends_two start off n m [] (h, hs) hm = (
  [],
  rw (counts_name start n h, counts_name false m hm)
      (ap (λ (k : ℕ). (off + length n) ∷ k ∷ []) (omega (arith, length-join-cons n m []))),
)
ends_two start off n m (o ∷ ns) (h, hs) hm =
    let (front, e) = ends_two false (off + length n + 1) o m ns hs hm in
    (
      (off + length n) ∷ front,
      rw (counts_name start n h) (
          ap (◌∷◌ (off + length n)) e
          ∙ ap₂ (λ (j k : ℕ). (off + length n) ∷ (front ++ (j ∷ k ∷ [])))
              (omega (arith, length-join-cons n o ns))
              (omega (arith, length-join-cons n o (ns ++ (m ∷ []))))),
    )

-- The parent of a path of one name is the empty path.
pub parent-join_one : (n : Bytes) → IsName n → parent (join (n ∷ [])) ≡ some []
unfolding parent ends
parent-join_one n h =
    rw (is_absolute-join (n ∷ []) (h, tt), split-join n [] (h, tt), counts_name true n h) up_to_one
  where
    up_to_one : up_to (join (n ∷ [])) ((0 + length n) ∷ []) ≡ some []
    up_to_one = unfold up_to in rw (is_absolute-join (n ∷ []) (h, tt)) refl

module _ (n m : Bytes) (ns : List Bytes) (h : All IsName (n ∷ ns)) (hm : IsName m) where
  abbrev path : Bytes
  path = join ((n ∷ ns) ++ (m ∷ []))

  ends_of_path :
      (front : List ℕ) × (ends (not (is_absolute path)) 0 (split path)
        ≡ front ++ (length (join (n ∷ ns)) ∷ length path ∷ []))
  ends_of_path =
      let all = All-append IsName (n ∷ ns) (m ∷ []) h (hm, tt) in
      let (front, e) = ends_two true 0 n m ns h hm in
      (
        front,
        ap₂ (λ (b : Bool) (l : List Bytes). ends (not b) 0 l)
              (is_absolute-join ((n ∷ ns) ++ (m ∷ [])) all) (split-join n (ns ++ (m ∷ [])) all)
            ∙ e
            ∙ ap₂ (λ (j k : ℕ). front ++ (j ∷ k ∷ [])) (omega arith) (omega arith),
      )

  up_to_two :
      (rest : List ℕ)
      → up_to path (length path ∷ length (join (n ∷ ns)) ∷ rest) ≡ some (join (n ∷ ns))
  unfolding up_to
  up_to_two rest = ap some (
      ap (take (length (join (n ∷ ns)))) (join-append n m ns [])
      ∙ take-append (length (join (n ∷ ns))) (join (n ∷ ns)) (slash ∷ join (m ∷ [])) refl)

  -- The parent of a longer path is the path without the last name.
  pub parent-join : parent path ≡ some (join (n ∷ ns))
  unfolding parent
  parent-join =
      let (front, e) = ends_of_path in
      ap (λ (l : List ℕ). up_to path (reverse l)) e
      ∙ ap (up_to path) (reverse-append front (length (join (n ∷ ns)) ∷ length path ∷ []))
      ∙ up_to_two (reverse front)
