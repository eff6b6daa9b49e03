-- ===== src/Text/Paths/Join.antt =====
-- Paths that are names joined by slashes, and what `Path::components` makes of any path.
use async_tar_rs.Base.{
  ℕ, ◌≤◌, ◌<◌, ◌≡◌, ◌≢◌, refl, sym, ap, ◌∙◌, Bool, true, false, List, [], ◌∷◌, ◌++◌, map, Bytes,
  All, length, length-append, arith,
}
use async_tar_rs.Base.Slots.{bytes_eq}
use async_tar_rs.Text.Paths.{
  normal, slash, dot, dot_dot, split, is_absolute, counts, component, body, components,
  ends_with_slash,
}

abbrev pub NoSlash : Bytes → Type 0
NoSlash part = All (λ b. b ≢ slash) part

-- A part that is a component of its own, and can be written to a field.
pub record IsName (part : Bytes) : Type 0 where
  pub some_byte : 0 < length part
  pub no_slash : NoSlash part
  pub no_nul : All (λ b. 1 ≤ b) part
  pub not_dot : bytes_eq part dot ≡ false
  pub not_dot_dot : bytes_eq part dot_dot ≡ false

-- The parts with slashes between them.
unfoldable pub join : List Bytes → Bytes
join [] = []
join (n ∷ []) = n
join (n ∷ m ∷ ns) = n ++ (slash ∷ join (m ∷ ns))

split_name : (n : Bytes) → NoSlash n → split n ≡ n ∷ []
unfolding split
split_name [] h = refl
split_name (b ∷ n) (hb, h) = ground (arith, split_name n h)

split-append : (n rest : Bytes) → NoSlash n → split (n ++ slash ∷ rest) ≡ n ∷ split rest
unfolding split
split-append [] rest h = refl
split-append (b ∷ n) rest (hb, h) = ground (arith, split-append n rest h)

pub split-join :
    (n : Bytes) (ns : List Bytes) → All IsName (n ∷ ns) → split (join (n ∷ ns)) ≡ n ∷ ns
unfolding join
split-join n [] (h, hs) = split_name n h.no_slash
split-join n (m ∷ ns) (h, hs) =
    split-append n (join (m ∷ ns)) h.no_slash ∙ ap (◌∷◌ n) (split-join m ns hs)

first_not_slash : (n rest : Bytes) → IsName n → is_absolute (n ++ rest) ≡ false
unfolding is_absolute
first_not_slash [] rest h = absurd (omega (arith, h.some_byte))
first_not_slash (b ∷ n) rest h = let no_slash = h.no_slash in ground arith

pub is_absolute-join : (ns : List Bytes) → All IsName ns → is_absolute (join ns) ≡ false
unfolding join
is_absolute-join [] h = unfold is_absolute in refl
is_absolute-join (n ∷ []) (h, hs) = ap is_absolute (sym (append_nil n)) ∙ first_not_slash n [] h
  where
    append_nil : (xs : Bytes) → xs ++ [] ≡ xs
    append_nil [] = refl
    append_nil (x ∷ xs) = ap (◌∷◌ x) (append_nil xs)
is_absolute-join (n ∷ m ∷ ns) (h, hs) = first_not_slash n (slash ∷ join (m ∷ ns)) h

pub counts_name : (start : Bool) (n : Bytes) → IsName n → counts start n ≡ true
unfolding counts
counts_name start [] h = absurd (omega (arith, h.some_byte))
counts_name start (b ∷ n) h = rw h.not_dot refl

component_name : (n : Bytes) → IsName n → component n ≡ normal n
unfolding component
component_name n h = rw (h.not_dot, h.not_dot_dot) refl

body_names : (start : Bool) (ns : List Bytes) → All IsName ns → body start ns ≡ map normal ns
unfolding body
body_names start [] h = refl
body_names start (n ∷ ns) (h, hs) =
    rw (counts_name start n h, component_name n h) (ap (◌∷◌ (normal n)) (body_names false ns hs))

-- The names come back as the components.
pub components-join : (ns : List Bytes) → All IsName ns → components (join ns) ≡ map normal ns
unfolding components join
components-join [] h = unfold split body is_absolute counts in refl
components-join (n ∷ ns) h =
    rw (is_absolute-join (n ∷ ns) h, split-join n ns h) (body_names true (n ∷ ns) h)

ends_with_slash_name : (n : Bytes) → NoSlash n → ends_with_slash n ≡ false
unfolding ends_with_slash
ends_with_slash_name [] h = refl
ends_with_slash_name (b ∷ []) (hb, h) = ground arith
ends_with_slash_name (b ∷ c ∷ n) (hb, h) = ends_with_slash_name (c ∷ n) h

ends_with_slash-append :
    (xs : Bytes) (b : ℕ) (ys : Bytes) → ends_with_slash (xs ++ (b ∷ ys)) ≡ ends_with_slash (b ∷ ys)
unfolding ends_with_slash
ends_with_slash-append [] b ys = refl
ends_with_slash-append (x ∷ []) b ys = refl
ends_with_slash-append (x ∷ y ∷ xs) b ys = ends_with_slash-append (y ∷ xs) b ys

ends_with_slash-cons : (n : Bytes) → 0 < length n → ends_with_slash (slash ∷ n) ≡ ends_with_slash n
unfolding ends_with_slash
ends_with_slash-cons [] h = absurd (omega arith)
ends_with_slash-cons (b ∷ n) h = refl

pub length-join_pos : (n : Bytes) (ns : List Bytes) → IsName n → 0 < length (join (n ∷ ns))
unfolding join
length-join_pos n [] h = h.some_byte
length-join_pos n (m ∷ ns) h =
    let first = h.some_byte in omega (arith, length-append n (slash ∷ join (m ∷ ns)))

pub ends_with_slash-join : (ns : List Bytes) → All IsName ns → ends_with_slash (join ns) ≡ false
unfolding join
ends_with_slash-join [] h = unfold ends_with_slash in refl
ends_with_slash-join (n ∷ []) (h, hs) = ends_with_slash_name n h.no_slash
ends_with_slash-join (n ∷ m ∷ ns) (h, hs) =
    ends_with_slash-append n slash (join (m ∷ ns))
    ∙ ends_with_slash-cons (join (m ∷ ns)) (length-join_pos m ns hs.0)
    ∙ ends_with_slash-join (m ∷ ns) hs
