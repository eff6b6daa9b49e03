-- ===== src/Archive/Stretches.antt =====
-- src/archive.rs, `add_block`: how the stretches of a sparse member add up.
use async_tar_rs.Base.{
  ℕ, ◌+◌, ◌-◌, ◌%◌, ◌^◌, ◌<◌, ◌≡◌, ap, ◌∙◌, false, not, ◌&&◌, List, [], ◌∷◌, ◌++◌, Bytes, ltb, ◌==◌,
  if◌then◌else◌, arith, Bool-cases, inl, inr,
}
use async_tar_rs.Base.Result.{Result, ok, err, ◌>>=◌}
use async_tar_rs.Poll.{Outcome, ready, pending, panicked, out_of_fuel, M, after}
use async_tar_rs.Entry.Fields.{EntryIo, pad, data_of}
use async_tar_rs.Archive.Sparse.{
  Blocks, place_block, add_block, add_blocks, block_is_empty, block_offset, block_length,
}

-- The bytes that a reader of the stretches gets, and those of them that come from the archive.
abbrev pub total : List EntryIo → ℕ
total [] = 0
total (pad n ∷ ios) = n + total ios
total (data_of n ∷ ios) = n + total ios

abbrev pub from_archive : List EntryIo → ℕ
from_archive [] = 0
from_archive (pad n ∷ ios) = from_archive ios
from_archive (data_of n ∷ ios) = n + from_archive ios

total-append : (xs ys : List EntryIo) → total (xs ++ ys) ≡ total xs + total ys
total-append [] ys = omega arith
total-append (pad n ∷ xs) ys = omega (arith, total-append xs ys)
total-append (data_of n ∷ xs) ys = omega (arith, total-append xs ys)

from_archive-append :
    (xs ys : List EntryIo) → from_archive (xs ++ ys) ≡ from_archive xs + from_archive ys
from_archive-append [] ys = omega arith
from_archive-append (pad n ∷ xs) ys = from_archive-append xs ys
from_archive-append (data_of n ∷ xs) ys = omega (arith, from_archive-append xs ys)

-- The blocks placed so far fill the file up to `cur`, and took what `remaining` lacks of the member.
pub record IsLaid (size : ℕ) (st : Blocks) : Type 0 where
  pub reached : total st.stretches ≡ st.cur
  pub taken : from_archive st.stretches + st.remaining ≡ size
  pub bounded : st.cur < 2 ^ 64

-- A predicate on the value of a computation that succeeds.
abbrev pub OnOk : {A : Type 0} → (A → Type 0) → Result A → Type 0
OnOk P (ok a) = P a
OnOk P (err e) = Unit {0}

abbrev pub OnReady : {A : Type 0} → (A → Type 0) → Outcome A → Type 0
OnReady P (ready r) = OnOk P r
OnReady P pending = Unit {0}
OnReady P panicked = Unit {0}
OnReady P out_of_fuel = Unit {0}

pub on_after :
    {S A B : Type 0} (P : A → Type 0) (Q : B → Type 0) (f : A → M S B) (x : S × Outcome A)
    → OnReady P x.1
    → ((a : A) (s : S) → P a → OnReady Q (f a s).1)
    → OnReady Q (after f x).1
on_after P Q f (s, ready (ok a)) p k = k a s p
on_after P Q f (s, ready (err e)) p k = tt
on_after P Q f (s, pending) p k = tt
on_after P Q f (s, panicked) p k = tt
on_after P Q f (s, out_of_fuel) p k = tt

gap_total :
    (cur off len : ℕ)
    → ltb off cur ≡ false
    → total ((if ltb cur off then pad (off - cur) ∷ [] else []) ++ (data_of len ∷ []))
      ≡ off - cur + len
gap_total cur off len e = elim (Bool-cases (ltb cur off)) [
  | inl b ↦ rw b (omega arith)
  | inr b ↦ rw b (ground arith)
]

gap_from_archive :
    (cur off len : ℕ)
    → from_archive ((if ltb cur off then pad (off - cur) ∷ [] else []) ++ (data_of len ∷ [])) ≡ len
gap_from_archive cur off len = elim (Bool-cases (ltb cur off)) [
  | inl b ↦ rw b (omega arith)
  | inr b ↦ rw b (omega arith)
]

place_block-IsLaid :
    (size off len : ℕ) (st : Blocks)
    → IsLaid size st
    → OnOk (IsLaid size) (place_block size off len st)
unfolding place_block
place_block-IsLaid size off len st l =
    elim (Bool-cases (not (len == 0) && not ((size - st.remaining) % 512 == 0))) [
      | inl b ↦ rw b tt
      | inr b ↦ elim (Bool-cases (ltb off st.cur)) [
        | inl c ↦ rw (b, c) tt
        | inr c ↦ elim (Bool-cases (ltb (off + len) (2 ^ 64))) [
          | inr d ↦ rw (b, c, d) tt
          | inl d ↦ elim (Bool-cases (ltb st.remaining len)) [
            | inl e ↦ rw (b, c, d, e) tt
            | inr e ↦
                rw (b, c, d, e)
                  (record {
                    reached =
                        total-append st.stretches _
                        ∙ (let sum = gap_total st.cur off len c in
                            let before = l.reached in ground arith);
                    taken =
                        ap (λ (k : ℕ). k + (st.remaining - len))
                          (from_archive-append st.stretches _)
                        ∙ (let part = gap_from_archive st.cur off len in
                            let before = l.taken in ground arith);
                    bounded = ground arith;
                  })
          ]
        ]
      ]
    ]

on_bind :
    {A B : Type 0} (Q : B → Type 0) (r : Result A) (f : A → Result B)
    → ((a : A) → OnOk Q (f a))
    → OnOk Q (◌>>=◌ r f)
on_bind Q (ok a) f k = k a
on_bind Q (err e) f k = tt

add_block-IsLaid :
    (size : ℕ) (st : Blocks) (block : Bytes)
    → IsLaid size st
    → OnOk (IsLaid size) (add_block size st block)
add_block-IsLaid size st block l = elim (Bool-cases (block_is_empty block)) [
  | inl b ↦ unfold add_block in rw b l
  | inr b ↦
      unfold add_block in
      rw b (
        on_bind (IsLaid size) (block_offset block) _ λ off.
          on_bind (IsLaid size) (block_length block) _ λ len. place_block-IsLaid size off len st l)
]

on_bind_ok :
    {A B : Type 0} (P : A → Type 0) (Q : B → Type 0) (r : Result A) (f : A → Result B)
    → OnOk P r
    → ((a : A) → P a → OnOk Q (f a))
    → OnOk Q (◌>>=◌ r f)
on_bind_ok P Q (ok a) f p k = k a p
on_bind_ok P Q (err e) f p k = tt

-- From blocks that are laid (the stretches add up to the offset reached, which is below `2 ^ 64`,
-- and their data with what remains to the size of the member), any list of block headers is
-- either refused with an error or leaves blocks that are laid.
pub add_blocks-IsLaid :
    (size : ℕ) (blocks : List Bytes) (st : Blocks)
    → IsLaid size st
    → OnOk (IsLaid size) (add_blocks size st blocks)
unfolding add_blocks
add_blocks-IsLaid size [] st l = l
add_blocks-IsLaid size (block ∷ blocks) st l =
    on_bind_ok (IsLaid size) (IsLaid size) (add_block size st block) _
      (add_block-IsLaid size st block l) λ st' l'. add_blocks-IsLaid size blocks st' l'
