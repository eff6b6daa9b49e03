-- ===== src/Archive/Overrun.antt =====
-- src/archive.rs, `poll_skip` over more than one buffer.
use async_tar_rs.Base.{
  ℕ, zero, suc, ◌+◌, ◌-◌, ◌^◌, ◌<◌, ◌≡◌, refl, ap, ◌∙◌, true, [], ◌∷◌, ◌++◌, Bytes, length, ltb,
  arith, min,
}
use async_tar_rs.Base.Result.{ok}
use async_tar_rs.Poll.{ready, panicked}
use async_tar_rs.Archive.Inner.{AsyncRead, ArchiveInner, Settings, poll_read}
use async_tar_rs.Archive.Entries.{EntriesFields, skip_loop, poll_skip}
use async_tar_rs.Archive.Stream.{IsSlice, opened, poll_read-opened, remaining-read}
use async_tar_rs.Archive.Raw.{between, bare, skip_step}

module _ {R : Type 0} (io : AsyncRead R) (remaining : R → Bytes) (slice : IsSlice io remaining)
    (settings : Settings) where
  skip_overrun :
      (amt fuel rem : ℕ) (s : EntriesFields R) (a : ArchiveInner R) (filled : Bytes)
      → poll_read io (min amt 32768) s.archive ≡ (a, ready (ok filled))
      → suc rem < length filled
      → skip_loop io amt (suc fuel) (suc rem) s ≡ (record s { archive = a }, panicked)
  skip_overrun amt fuel rem s a [] e more = absurd (omega arith)
  skip_overrun amt fuel rem s a (f ∷ filled) e more =
      unfold skip_loop in
      rw (e, let over : ltb (suc rem) (length (f ∷ filled)) ≡ true = ground arith in over) refl

  -- Where more than 32768 and fewer than 65536 bytes are to be skipped without seeking, and the
  -- reader has 65536 bytes at hand, gives them by whole buffers and stays below the position `2 ^
  -- 64`, `poll_skip` reads all 65536 bytes and panics as `rem -= n` underflows.
  pub poll_skip-overrun :
      (front middle back : Bytes) (amt pos next : ℕ) (r : R)
      → remaining r ≡ front ++ (middle ++ back)
      → length front ≡ 32768
      → length middle ≡ 32768
      → 32768 < amt
      → amt < 65536
      → pos + 65536 < 2 ^ 64
      → (r' : R) × (remaining r' ≡ back)
        × (poll_skip io amt (between next (opened settings pos r))
            ≡ (between next (opened settings (pos + 65536) r'), panicked))
  unfolding poll_skip
  poll_skip-overrun front middle back zero pos next r e l m above below fits = absurd (omega arith)
  poll_skip-overrun front middle back (suc zero) pos next r e l m above below fits =
      absurd (omega arith)
  poll_skip-overrun front middle back (suc (suc amt)) pos next r e l m above below fits =
      let whole : min (suc (suc amt)) 32768 ≡ 32768 = omega (arith, above) in
      let r1 = (io.poll_read r 32768).0 in
      let r2 = (io.poll_read r1 32768).0 in
      let e1 = remaining-read io remaining slice settings front (middle ++ back) 32768 r e l in
      let one =
        poll_read-opened io remaining slice settings front (middle ++ back) 32768 pos r e l
          (omega (arith, fits)) in
      let two =
        poll_read-opened io remaining slice settings middle back 32768 (pos + 32768) r1 e1 m
          (omega (arith, fits)) in
      (
        r2,
        remaining-read io remaining slice settings middle back 32768 r1 e1 m,
        skip_step io remaining slice settings bare (suc (suc amt)) (suc amt) (suc amt)
              (between next (opened settings pos r)) (opened settings (pos + 32768) r1) front
              (ap (λ (k : ℕ). poll_read io k (opened settings pos r)) whole ∙ one) (omega arith)
              (omega arith)
            ∙ ap
                (λ (k : ℕ).
                  skip_loop io (suc (suc amt)) (suc amt) k
                    (between next (opened settings (pos + 32768) r1)))
                (let left : suc (suc amt) - length front ≡ suc (amt + 1 - 32768) =
                    omega (arith, l, above) in
                  left)
            ∙ skip_overrun (suc (suc amt)) amt (amt + 1 - 32768)
                (between next (opened settings (pos + 32768) r1))
                (opened settings (pos + 32768 + 32768) r2) middle
                (ap (λ (k : ℕ). poll_read io k (opened settings (pos + 32768) r1)) whole ∙ two)
                (omega arith)
            ∙ ap (λ (p : ℕ). (between next (opened settings p r2), panicked)) (omega arith),
      )
