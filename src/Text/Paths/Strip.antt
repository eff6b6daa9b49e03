-- ===== src/Text/Paths/Strip.antt =====
-- `Path::strip_prefix`.
use async_tar_rs.Base.{
  ℕ, zero, suc, ◌+◌, ◌-◌, ◌≡◌, refl, Bool, true, false, Option, none, some, List, [], ◌∷◌, Bytes,
  length, take, drop, if◌then◌else◌,
}
use async_tar_rs.Text.Paths.{split, is_absolute, counts, components, prefix_of}

-- Where the components of the body start and end, from `off` on.
unfoldable pub spans : Bool → ℕ → List Bytes → List (ℕ × ℕ)
unfolding counts
spans start off [] = []
spans start off (part ∷ parts) =
    let rest = spans false (off + length part + 1) parts in
    if counts start part then (off, off + length part) ∷ rest else rest

-- The end of the last component.
unfoldable pub last_end : ℕ → List (ℕ × ℕ) → ℕ
last_end e [] = e
last_end e ((s, e') ∷ rest) = last_end e' rest

-- `Components::as_path` from the first of the components that are left to the last one.
unfoldable pub from_first : Bytes → List (ℕ × ℕ) → Bytes
unfolding last_end
from_first path [] = []
from_first path ((s, e) ∷ rest) = take (last_end e rest - s) (drop s path)

-- What is left of a path behind `n` components. The root is one of them.
unfoldable pub behind : Bool → ℕ → Bytes → Bytes
unfolding spans from_first
behind false n path = from_first path (drop n (spans true 0 (split path)))
behind true zero path = take (last_end 1 (spans false 0 (split path))) path
behind true (suc n) path = from_first path (drop n (spans false 0 (split path)))

unfoldable pub strip_prefix : Bytes → Bytes → Option Bytes
unfolding behind components prefix_of
strip_prefix path base =
    if prefix_of (components base) (components path)
    then some (behind (is_absolute path) (length (components base)) path)
    else none

strip_prefix_runs :
    (strip_prefix (b'a' ∷ b'/' ∷ b'b' ∷ b'/' ∷ b'c' ∷ b'/' ∷ []) (b'a' ∷ [])
      ≡ some (b'b' ∷ b'/' ∷ b'c' ∷ []))
    × (strip_prefix (b'/' ∷ b'a' ∷ []) (b'/' ∷ []) ≡ some (b'a' ∷ []))
    × (strip_prefix (b'.' ∷ b'/' ∷ b'a' ∷ []) (b'.' ∷ []) ≡ some (b'a' ∷ []))
    × (strip_prefix (b'a' ∷ []) (b'a' ∷ []) ≡ some [])
    × (strip_prefix (b'a' ∷ b'b' ∷ []) (b'a' ∷ []) ≡ none)
unfolding strip_prefix take drop split
strip_prefix_runs = (refl, refl, refl, refl, refl)
