-- ===== src/Archive/Raw.antt =====
-- One step of the iteration over raw members, on a reader with the bytes at hand.
use async_tar_rs.Base.{
  ℕ, zero, suc, ◌+◌, ◌-◌, ◌^◌, ◌≤◌, ◌<◌, ◌≡◌, refl, ap, ◌∙◌, true, false, Option, none, some, [],
  ◌∷◌, ◌++◌, Bytes, length, min, ltb, arith,
}
use async_tar_rs.Base.Result.{ok}
use async_tar_rs.Poll.{ready}
use async_tar_rs.Header.{Header}
use async_tar_rs.Archive.Inner.{AsyncRead, ArchiveInner, Settings, poll_read, poll_try_read_all}
use async_tar_rs.Archive.Entries.{EntriesFields, all_zero, skip_loop, poll_skip, poll_block}
use async_tar_rs.Archive.Stream.{IsSlice, opened, poll_read-opened, remaining-read}
use async_tar_rs.Entry.Fields.{data_of, EntryFields}

-- What the members that came before say of the next one.
pub record Held : Type 0 where
  pub longname : Option Bytes
  pub longlink : Option Bytes
  pub pax : Option Bytes

abbrev pub bare : Held
bare = record { longname = none; longlink = none; pax = none }

-- The reader of entries where no entry is at hand.
abbrev pub holding : {R : Type 0} → Held → ℕ → ArchiveInner R → EntriesFields R
holding held next a = record {
  archive = a;
  seekable = false;
  next = next;
  done = false;
  raw = false;
  fields = none;
  gnu_longname = held.longname;
  gnu_longlink = held.longlink;
  pax_extensions = held.pax;
}

abbrev pub between : {R : Type 0} → ℕ → ArchiveInner R → EntriesFields R
between = holding bare

-- The entry that a plain header gives.
abbrev pub entry_of : Settings → Header → ℕ → ℕ → EntryFields
entry_of settings h size header_pos = record {
  long_pathname = none;
  long_linkname = none;
  pax_extensions = none;
  settings = settings;
  header = h;
  size = size;
  header_pos = header_pos;
  file_pos = header_pos + 512;
  io_data = data_of size ∷ [];
  read_state = none;
}

module _ {R : Type 0} (io : AsyncRead R) (remaining : R → Bytes) (slice : IsSlice io remaining)
    (settings : Settings) (held : Held) where
  pub skip_step :
      (amt fuel rem : ℕ) (s : EntriesFields R) (a : ArchiveInner R) (filled : Bytes)
      → poll_read io (min amt 32768) s.archive ≡ (a, ready (ok filled))
      → 0 < length filled
      → length filled ≤ suc rem
      → skip_loop io amt (suc fuel) (suc rem) s
        ≡ skip_loop io amt fuel (suc rem - length filled) (record s { archive = a })
  skip_step amt fuel rem s a [] e pos le = absurd (omega arith)
  skip_step amt fuel rem s a (f ∷ filled) e pos le =
      unfold skip_loop in
      rw (e, let fits : ltb (suc rem) (length (f ∷ filled)) ≡ false = ground arith in fits) refl

  skip_end :
      (amt fuel rem : ℕ) (s : EntriesFields R)
      → rem ≡ 0
      → skip_loop io amt fuel rem s ≡ (s, ready (ok amt))
  skip_end amt fuel rem s e = ap (λ (k : ℕ). skip_loop io amt fuel k s) e ∙ skip_done fuel
    where
      skip_done : (fuel : ℕ) → skip_loop io amt fuel 0 s ≡ (s, ready (ok amt))
      skip_done zero = unfold skip_loop in refl
      skip_done (suc fuel) = unfold skip_loop in refl

  -- Up to 32768 bytes are skipped in one read.
  pub poll_skip-between :
      (front back : Bytes) (pos next : ℕ) (r : R)
      → remaining r ≡ front ++ back
      → length front ≤ 32768
      → pos + length front < 2 ^ 64
      → (r' : R) × (remaining r' ≡ back)
        × (poll_skip io (length front) (holding held next (opened settings pos r)) ≡ (
          holding held next (opened settings (pos + length front) r'),
          ready (ok (length front)),
        ))
  unfolding poll_skip
  poll_skip-between [] back pos next r e small fits = (
    r,
    e,
    skip_end 0 0 0 (holding held next (opened settings pos r)) refl
        ∙ ap (λ (p : ℕ). (holding held next (opened settings p r), ready (ok 0))) (omega arith),
  )
  poll_skip-between (f ∷ front) back pos next r e small fits =
      let n = length (f ∷ front) in
      let r' = (io.poll_read r n).0 in
      let one = poll_read-opened io remaining slice settings (f ∷ front) back n pos r e refl fits in
      let whole : min n 32768 ≡ n = omega (arith, small) in
      (
        r',
        remaining-read io remaining slice settings (f ∷ front) back n r e refl,
        skip_step n (length front) (length front) (holding held next (opened settings pos r))
              (opened settings (pos + n) r') (f ∷ front)
              (ap (λ (m : ℕ). poll_read io m (opened settings pos r)) whole ∙ one) (omega arith)
              (omega arith)
            ∙ skip_end n (length front) _ _ (omega arith),
      )

  module _ (s : EntriesFields R) (delta skipped : ℕ) (s' : EntriesFields R) (a : ArchiveInner R)
      (bytes : Bytes) (above : s.archive.pos ≤ s.next) (gap : s.next - s.archive.pos ≡ delta)
      (skip : poll_skip io delta s ≡ (s', ready (ok skipped)))
      (block : poll_try_read_all io 512 s'.archive ≡ (a, ready (ok (some bytes)))) where
    -- A block that is not all zeros is a header.
    pub poll_block-header :
        all_zero bytes ≡ false
        → s'.next + 512 < 2 ^ 64
        → poll_block io s ≡ (
          record s' { archive = a; next = s'.next + 512 },
          ready (ok (false, some (record { bytes = bytes }))),
        )
    unfolding poll_block
    poll_block-header z fits =
        rw
          (
            let low : ltb s.next s.archive.pos ≡ false = ground arith in low,
            gap,
            skip,
            block,
            z,
            let room : ltb (s'.next + 512) (2 ^ 64) ≡ true = ground arith in room,
          )
          refl

    -- A block of zeros ends the archive where zeros are not ignored.
    pub poll_block-end :
        all_zero bytes ≡ true
        → a.ignore_zeros ≡ false
        → poll_block io s ≡ (record s' { archive = a }, ready (ok (false, none)))
    unfolding poll_block
    poll_block-end z stop =
        rw
          (
            let low : ltb s.next s.archive.pos ≡ false = ground arith in low,
            gap,
            skip,
            block,
            z,
            stop,
          )
          refl
