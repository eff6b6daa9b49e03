-- ===== src/Base/Slots.antt =====
-- Writing into a part of a fixed byte array, and reading a part of it. A `#[repr(C)]` view of the
-- 512 bytes of a header block is a family of such parts.
use async_tar_rs.Base.{
  Bool, true, false, ◌&&◌, ◌==◌, ℕ, zero, suc, ◌+◌, ◌≤◌, ◌≡◌, refl, ap, ◌∙◌, ◌⊎◌, inl, inr, [], ◌∷◌,
  arith, Bytes, length, take, drop,
}

-- `==` on slices.
abbrev pub bytes_eq : Bytes → Bytes → Bool
bytes_eq [] [] = true
bytes_eq [] (y ∷ ys) = false
bytes_eq (x ∷ xs) [] = false
bytes_eq (x ∷ xs) (y ∷ ys) = x == y && bytes_eq xs ys

-- `for (slot, val) in slots.iter_mut().zip(vals) { *slot = val; }`
unfoldable pub overlay : Bytes → Bytes → Bytes
overlay [] vals = []
overlay (x ∷ slots) [] = x ∷ slots
overlay (x ∷ slots) (v ∷ vals) = v ∷ overlay slots vals

-- `&bytes[off..off + n]`
unfoldable pub slice : ℕ → ℕ → Bytes → Bytes
slice off n bytes = take n (drop off bytes)

-- The array with `vals` in the places from `off` on.
unfoldable pub splice : ℕ → Bytes → Bytes → Bytes
splice zero vals bytes = overlay bytes vals
splice (suc off) vals [] = []
splice (suc off) vals (b ∷ bytes) = b ∷ splice off vals bytes

pub length-overlay : (slots vals : Bytes) → length (overlay slots vals) ≡ length slots
unfolding overlay
length-overlay [] vals = refl
length-overlay (x ∷ slots) [] = refl
length-overlay (x ∷ slots) (v ∷ vals) = ap suc (length-overlay slots vals)

pub length-splice : (off : ℕ) (vals bytes : Bytes) → length (splice off vals bytes) ≡ length bytes
unfolding splice
length-splice zero vals bytes = length-overlay bytes vals
length-splice (suc off) vals [] = refl
length-splice (suc off) vals (b ∷ bytes) = ap suc (length-splice off vals bytes)

pub length-slice :
    (off n : ℕ) (bytes : Bytes) → off + n ≤ length bytes → length (slice off n bytes) ≡ n
unfolding slice take drop
length-slice zero zero bytes h = refl
length-slice zero (suc n) [] h = absurd (omega arith)
length-slice zero (suc n) (b ∷ bytes) h = ap suc (length-slice zero n bytes (omega arith))
length-slice (suc off) n [] h = absurd (omega arith)
length-slice (suc off) n (b ∷ bytes) h = length-slice off n bytes (omega arith)

take-overlay :
    (vals bytes : Bytes)
    → length vals ≤ length bytes
    → take (length vals) (overlay bytes vals) ≡ vals
unfolding overlay take
take-overlay [] bytes h = refl
take-overlay (v ∷ vals) [] h = absurd (omega arith)
take-overlay (v ∷ vals) (b ∷ bytes) h = ap (◌∷◌ v) (take-overlay vals bytes (omega arith))

-- What was written is read back.
pub slice-splice :
    (off n : ℕ) (vals bytes : Bytes)
    → length vals ≡ n
    → off + n ≤ length bytes
    → slice off n (splice off vals bytes) ≡ vals
unfolding slice splice drop
slice-splice zero n vals bytes e h =
    ap (λ (k : ℕ). take k (overlay bytes vals)) (omega arith)
    ∙ take-overlay vals bytes (omega arith)
slice-splice (suc off) n vals [] e h = absurd (omega arith)
slice-splice (suc off) n vals (b ∷ bytes) e h = slice-splice off n vals bytes e (omega arith)

drop-overlay :
    (vals bytes : Bytes) (k : ℕ) → length vals ≤ k → drop k (overlay bytes vals) ≡ drop k bytes
unfolding overlay drop
drop-overlay vals [] k h = refl
drop-overlay [] (b ∷ bytes) k h = refl
drop-overlay (v ∷ vals) (b ∷ bytes) zero h = absurd (omega arith)
drop-overlay (v ∷ vals) (b ∷ bytes) (suc k) h = drop-overlay vals bytes k (omega arith)

pub drop-splice :
    (k off : ℕ) (vals bytes : Bytes)
    → off + length vals ≤ k
    → drop k (splice off vals bytes) ≡ drop k bytes
unfolding splice drop
drop-splice k zero vals bytes h = drop-overlay vals bytes k (omega arith)
drop-splice k (suc off) vals [] h = refl
drop-splice zero (suc off) vals (b ∷ bytes) h = absurd (omega arith)
drop-splice (suc k) (suc off) vals (b ∷ bytes) h = drop-splice k off vals bytes (omega arith)

pub take-splice :
    (n off : ℕ) (vals bytes : Bytes) → n ≤ off → take n (splice off vals bytes) ≡ take n bytes
unfolding splice take
take-splice zero off vals bytes h = refl
take-splice (suc n) zero vals bytes h = absurd (omega arith)
take-splice (suc n) (suc off) vals [] h = refl
take-splice (suc n) (suc off) vals (b ∷ bytes) h =
    ap (◌∷◌ b) (take-splice n off vals bytes (omega arith))

slice_below :
    (o n off : ℕ) (vals bytes : Bytes)
    → o + n ≤ off
    → slice o n (splice off vals bytes) ≡ slice o n bytes
unfolding slice splice drop
slice_below zero n off vals bytes h = take-splice n off vals bytes (omega arith)
slice_below (suc o) n zero vals bytes h = absurd (omega arith)
slice_below (suc o) n (suc off) vals [] h = refl
slice_below (suc o) n (suc off) vals (b ∷ bytes) h = slice_below o n off vals bytes (omega arith)

-- A part that does not meet the written part is as it was.
pub slice-splice_apart :
    (o n off : ℕ) (vals bytes : Bytes)
    → (o + n ≤ off) ⊎ (off + length vals ≤ o)
    → slice o n (splice off vals bytes) ≡ slice o n bytes
slice-splice_apart o n off vals bytes (inl h) = slice_below o n off vals bytes h
slice-splice_apart o n off vals bytes (inr h) =
    unfold slice in ap (take n) (drop-splice o off vals bytes h)
