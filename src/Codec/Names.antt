-- ===== src/Codec/Names.antt =====
-- `copy_into` and `truncate`: text fields, which a NUL ends unless they are full.
use async_tar_rs.Base.{◌≤◌, ◌≡◌, refl, false, [], ◌∷◌, ◌++◌, arith, Bytes, All, any, length, ◌==◌}
use async_tar_rs.Base.Slots.{overlay, length-overlay}
use async_tar_rs.Base.Result.{ok}
use async_tar_rs.Codec.{truncate, copy_into}

-- What stands before the first NUL.
pub truncate-nul : (text rest : Bytes) → All (λ b. 1 ≤ b) text → truncate (text ++ 0 ∷ rest) ≡ text
unfolding truncate
truncate-nul [] rest h = refl
truncate-nul (b ∷ text) rest (hb, h) = ground (arith, truncate-nul text rest h)

pub truncate_full : (text : Bytes) → All (λ b. 1 ≤ b) text → truncate text ≡ text
unfolding truncate
truncate_full [] h = refl
truncate_full (b ∷ text) (hb, h) = ground (arith, truncate_full text h)

pub any_nul : (bytes : Bytes) → All (λ b. 1 ≤ b) bytes → any (λ b. b == 0) bytes ≡ false
any_nul [] h = refl
any_nul (b ∷ bytes) (hb, h) = ground (arith, any_nul bytes h)

overlay_text :
    (slot bytes : Bytes)
    → All (λ b. 1 ≤ b) bytes
    → length bytes ≤ length slot
    → truncate (overlay slot (bytes ++ 0 ∷ [])) ≡ bytes
unfolding overlay truncate
overlay_text [] [] h le = refl
overlay_text [] (b ∷ bytes) h le = absurd (omega arith)
overlay_text (x ∷ slot) [] h le = refl
overlay_text (x ∷ slot) (b ∷ bytes) (hb, h) le = ground (arith, overlay_text slot bytes h)

-- A text without NUL that is no longer than the slot is stored by `copy_into`, whatever the slot
-- held before; `truncate` gives the text back, and the slot keeps its length.
pub truncate-copy_into :
    (slot bytes : Bytes)
    → All (λ b. 1 ≤ b) bytes
    → length bytes ≤ length slot
    → (slot' : Bytes) × (copy_into slot bytes ≡ ok slot')
      × (truncate slot' ≡ bytes)
      × (length slot' ≡ length slot)
truncate-copy_into slot bytes h le =
    (overlay slot (bytes ++ 0 ∷ []), stored, overlay_text slot bytes h le, length-overlay slot _)
  where
    stored : copy_into slot bytes ≡ ok (overlay slot (bytes ++ 0 ∷ []))
    stored = unfold copy_into in ground (arith, any_nul bytes h)
