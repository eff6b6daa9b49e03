-- ===== src/Builder/Layout.antt =====
-- What `append` and `finish` write, on a writer that keeps every byte.
use async_tar_rs.Base.{
  ℕ, ◌-◌, ◌%◌, ◌≡◌, refl, sym, ap, ◌∙◌, true, false, none, List, [], ◌∷◌, ◌++◌, Bytes, length,
  replicate, arith, ltb, Bool-cases, inl, inr,
}
use async_tar_rs.Base.Result.{ok}
use async_tar_rs.Poll.{ready, M, ◌>>◌}
use async_tar_rs.Header.{Header}
use async_tar_rs.Builder.Append.{AsyncWrite, Source, Builder, append, builder_append, finish}
use mathlib.Core.Path.{ap₂}
use mathlib.Core.List.{append-nil, append_assoc}

-- `written` is what the writer has taken.
pub record IsVec {W : Type 0} (io : AsyncWrite W) (written : W → Bytes) : Type 0 where
  pub taken : (w : W) (b : Bytes) → (io.write_all w b).1 ≡ ready (ok tt)
  pub kept : (w : W) (b : Bytes) → written (io.write_all w b).0 ≡ written w ++ b

-- The writer `Vec<u8>`.
abbrev pub byte_vec : AsyncWrite Bytes
byte_vec = record { write_all = λ w b. (w ++ b, ready (ok tt)) }

pub byte_vec-IsVec : IsVec byte_vec (λ w. w)
byte_vec-IsVec = record { taken = λ w b. refl; kept = λ w b. refl }

-- The zeros behind `n` bytes of data.
abbrev pub padding : ℕ → ℕ
padding n = (512 - n % 512) % 512

-- A member of an archive: its header, its data and the padding.
abbrev pub member : Header → Bytes → Bytes
member h content = h.bytes ++ (content ++ replicate (padding (length content)) 0)

abbrev pub source : Bytes → Source
source content = record { content = content; failure = none }

pad_short : (n : ℕ) → ltb (512 - n % 512) 512 ≡ true → 512 - n % 512 ≡ padding n
pad_short n h = ground arith

pad_whole : (n : ℕ) → ltb (512 - n % 512) 512 ≡ false → 0 ≡ padding n
pad_whole n h = ground arith

no_padding : (content : Bytes) (n : ℕ) → 0 ≡ n → content ≡ content ++ replicate n 0
unfolding replicate
no_padding content n e = sym (append-nil content) ∙ ap (λ (k : ℕ). content ++ replicate k 0) e

module _ {W : Type 0} (io : AsyncWrite W) (written : W → Bytes) (vec : IsVec io written) where
  append_padded :
      (h : Header) (content : Bytes) (w : W)
      → ltb (512 - length content % 512) 512 ≡ true
      → append io h (source content) w ≡ (
        (io.write_all
            (io.write_all (io.write_all w h.bytes).0 content).0
            (replicate (512 - length content % 512) 0)).0,
        ready (ok tt),
      )
  unfolding append
  append_padded h content w short =
      rw
        (
          vec.taken w h.bytes,
          vec.taken (io.write_all w h.bytes).0 content,
          short,
          vec.taken (io.write_all (io.write_all w h.bytes).0 content).0,
        )
        refl

  append_whole :
      (h : Header) (content : Bytes) (w : W)
      → ltb (512 - length content % 512) 512 ≡ false
      → append io h (source content) w
        ≡ ((io.write_all (io.write_all w h.bytes).0 content).0, ready (ok tt))
  unfolding append
  append_whole h content w whole =
      rw (vec.taken w h.bytes, vec.taken (io.write_all w h.bytes).0 content, whole) refl

  -- On a writer that keeps every byte, `append` succeeds and adds the header, the data and the
  -- zeros up to a whole block.
  pub append-member :
      (h : Header) (content : Bytes) (w : W)
      → (w' : W) × (append io h (source content) w ≡ (w', ready (ok tt)))
        × (written w' ≡ written w ++ member h content)
  append-member h content w =
      let w1 = (io.write_all w h.bytes).0 in
      let w2 = (io.write_all w1 content).0 in
      let front : written w2 ≡ written w ++ (h.bytes ++ content) =
        vec.kept w1 content
        ∙ ap (λ (t : Bytes). t ++ content) (vec.kept w h.bytes)
        ∙ append_assoc (written w) h.bytes content in
      elim (Bool-cases (ltb (512 - length content % 512) 512)) [
        | inl short ↦ (
          (io.write_all w2 (replicate (512 - length content % 512) 0)).0,
          append_padded h content w short,
          vec.kept w2 _
              ∙ ap₂ (λ (t : Bytes) (k : ℕ). t ++ replicate k 0) front
                  (pad_short (length content) short)
              ∙ append_assoc (written w) (h.bytes ++ content) _
              ∙ ap (λ (t : Bytes). written w ++ t) (append_assoc h.bytes content _),
        )
        | inr whole ↦ (
          w2,
          append_whole h content w whole,
          front
              ∙ ap (λ (t : Bytes). written w ++ t)
                  (ap (λ (t : Bytes). h.bytes ++ t)
                    (no_padding content (padding (length content))
                      (pad_whole (length content) whole))),
        )
      ]

-- The blocks of zeros at the end.
abbrev pub trailer : Bytes
trailer = replicate 1024 0

abbrev pub members : List (Header × Bytes) → Bytes
members [] = []
members ((h, content) ∷ ms) = member h content ++ members ms

-- A client that appends each member and finishes the archive.
unfoldable pub write_archive :
    {W : Type 0} → AsyncWrite W → List (Header × Bytes) → M (Builder W) (Unit {0})
write_archive io [] = finish io
write_archive io ((h, content) ∷ ms) = do builder_append io h (source content); write_archive io ms

module _ {W : Type 0} (io : AsyncWrite W) (written : W → Bytes) (vec : IsVec io written) where
  finish-trailer :
      (b : Builder W)
      → b.finished ≡ false
      → (b' : Builder W) × (finish io b ≡ (b', ready (ok tt)))
        × (written b'.obj ≡ written b.obj ++ trailer)
  unfolding finish
  finish-trailer b open_ = (
    record b { finished = true; obj = (io.write_all b.obj trailer).0 },
    rw (open_, vec.taken b.obj trailer) refl,
    vec.kept b.obj trailer,
  )

  -- On a builder that is not finished, over a writer that keeps every byte, appending each member
  -- and finishing succeeds, and adds to the bytes written each header, its data and the zeros up
  -- to a whole block, member after member, and then 1024 zeros.
  pub write_archive-members :
      (ms : List (Header × Bytes)) (b : Builder W)
      → b.finished ≡ false
      → (b' : Builder W) × (write_archive io ms b ≡ (b', ready (ok tt)))
        × (written b'.obj ≡ written b.obj ++ (members ms ++ trailer))
  write_archive-members [] b open_ = unfold write_archive in finish-trailer b open_
  write_archive-members ((h, content) ∷ ms) b open_ =
      let (w, done, kept) = append-member io written vec h content b.obj in
      let (b', later, kept') = write_archive-members ms (record b { obj = w }) open_ in
      (
        b',
        write_step h content ms b w done ∙ later,
        kept'
            ∙ ap (λ (t : Bytes). t ++ (members ms ++ trailer)) kept
            ∙ append_assoc (written b.obj) (member h content) (members ms ++ trailer)
            ∙ ap (λ (t : Bytes). written b.obj ++ t)
                (sym (append_assoc (member h content) (members ms) trailer)),
      )
    where
      write_step :
          (h : Header) (content : Bytes) (ms : List (Header × Bytes)) (b : Builder W) (w : W)
          → append io h (source content) b.obj ≡ (w, ready (ok tt))
          → write_archive io ((h, content) ∷ ms) b ≡ write_archive io ms (record b { obj = w })
      write_step h content ms b w e = unfold write_archive builder_append in rw e refl
