-- ===== src/Archive/Split.antt =====
-- src/archive.rs, `poll_try_read_all` on a block that arrives in two reads.
use async_tar_rs.Base.{
  ℕ, ◌+◌, ◌-◌, ◌%◌, ◌^◌, ◌≤◌, ◌||◌, ltb, ◌≡◌, refl, ap, ◌∙◌, true, false, [], ◌∷◌, Bytes, length,
  arith, ◌==◌,
}
use async_tar_rs.Base.Result.{ok}
use async_tar_rs.Poll.{Outcome, ready, pending, panicked}
use async_tar_rs.Archive.Inner.{AsyncRead, ArchiveInner, poll_read, block_read, poll_try_read_all}

module _ {R : Type 0} (io : AsyncRead R) where
  -- The archive after a read of `filled` into an empty buffer.
  abbrev pub buffered : ArchiveInner R → R → Bytes → ArchiveInner R
  buffered a r filled = record a { pos = (a.pos + length filled) % 2 ^ 64; buf = filled; obj = r }

  -- A block of `n` bytes, `n` up to 512, that arrives in two reads, from an empty buffer, is
  -- never put together: the first poll keeps the part and is pending, and the second one panics,
  -- as the part is copied over the whole block.
  pub poll_try_read_all-split :
      (n : ℕ) (a : ArchiveInner R) (r1 r2 : R) (x y : ℕ) (xs ys : Bytes)
      → n ≤ 512
      → a.buf ≡ []
      → io.poll_read a.obj n ≡ (r1, ready (ok (x ∷ xs)))
      → io.poll_read r1 (n - length (x ∷ xs)) ≡ (r2, ready (ok (y ∷ ys)))
      → length (x ∷ xs) + length (y ∷ ys) ≡ n
      → (poll_try_read_all io n a ≡ (buffered a r1 (x ∷ xs), pending))
        × ((poll_try_read_all io n (buffered a r1 (x ∷ xs))).1 ≡ panicked)
  poll_try_read_all-split n a r1 r2 x y xs ys small empty first second sum =
      let exact : (length (y ∷ ys) == n - length (x ∷ xs)) ≡ true = ground arith in
      let nothing : length a.buf ≡ 0 = ap (λ (t : Bytes). length t) empty in
      let asked : io.poll_read a.obj (n - length a.buf) ≡ (r1, ready (ok (x ∷ xs))) =
        ap (io.poll_read a.obj) (omega (arith, nothing)) ∙ first in
      let from_start : io.poll_read a.obj (n - 0) ≡ (r1, ready (ok (x ∷ xs))) =
        ap (io.poll_read a.obj) (omega arith) ∙ first in
      let room : (ltb n (length a.buf) || ltb 512 (n - length a.buf)) ≡ false =
        ground (arith, nothing) in
      let room' : (ltb n (length (x ∷ xs)) || ltb 512 (n - length (x ∷ xs))) ≡ false =
        ground arith in
      let short : (length (x ∷ xs) == n - length a.buf) ≡ false = ground arith in
      let part : (length (x ∷ xs) == n) ≡ false = ground arith in
      (
        unfold poll_try_read_all poll_read block_read in
            rw (room, asked, short, empty)
              (ap (λ (p : R × Outcome Bytes). (buffered a p.0 (x ∷ xs), pending)) from_start),
        unfold poll_try_read_all poll_read block_read in rw (room', second, exact, part) refl,
      )
