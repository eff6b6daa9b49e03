-- ===== src/Archive/Seek.antt =====
-- src/archive.rs, `poll_skip` where the archive seeks, and what two headers in a row come to.
use async_tar_rs.Base.{
  ℕ, suc, ◌+◌, ◌^◌, ◌<◌, ◌≡◌, refl, sym, ap, ◌∙◌, true, none, some, ◌++◌, Bytes, drop, length,
  length-append, drop-append, ltb, arith,
}
use async_tar_rs.Base.Result.{ok}
use async_tar_rs.Poll.{ready}
use async_tar_rs.Header.{Header}
use async_tar_rs.Archive.Inner.{AsyncRead, ArchiveInner, Settings}
use async_tar_rs.Archive.Entries.{
  EntriesFields, all_zero, round_down, poll_skip, seek_on, poll_next_entry_raw,
}
use async_tar_rs.Archive.Stream.{IsSlice, opened, remaining-read, poll_try_read_all-opened}
use async_tar_rs.Archive.Raw.{between, bare, entry_of, poll_block-header, poll_block-end}
use async_tar_rs.Archive.Member.{IsReadable, read_entry-plain, poll_header-found, poll_header-end}
use mathlib.Core.List.{append_assoc}

-- A seek passes over bytes as a read takes them.
pub record IsSeekable {R : Type 0} (io : AsyncRead R) (remaining : R → Bytes) : Type 0 where
  pub sought : (r : R) (n : ℕ) → (place : ℕ) × ((io.poll_seek r n).1 ≡ ready (ok place))
  pub passed : (r : R) (n : ℕ) → remaining (io.poll_seek r n).0 ≡ drop n (remaining r)

-- The reader of entries that `entries_with_seek` gives, where no entry is at hand.
abbrev pub seeking : {R : Type 0} → ℕ → ArchiveInner R → EntriesFields R
seeking next a = record (between next a) { seekable = true }

module _ {R : Type 0} (io : AsyncRead R) (remaining : R → Bytes) (slice : IsSlice io remaining)
    (seekable : IsSeekable io remaining) (settings : Settings) where
  -- The reader moves, and the position does not.
  poll_skip-seeking :
      (front back : Bytes) (pos next amt : ℕ) (r : R)
      → remaining r ≡ front ++ back
      → length front ≡ amt
      → amt < 2 ^ 63
      → (r' : R) × (place : ℕ) × (remaining r' ≡ back)
        × (poll_skip io amt (seeking next (opened settings pos r))
            ≡ (seeking next (opened settings pos r'), ready (ok place)))
  poll_skip-seeking front back pos next amt r e l small =
      let (place, there) = seekable.sought r amt in
      let fits : ltb amt (2 ^ 63) ≡ true = ground arith in
      (
        (io.poll_seek r amt).0,
        place,
        seekable.passed r amt ∙ ap (drop amt) e ∙ drop-append amt front back l,
        unfold poll_skip seek_on in rw (fits, there) refl,
      )

  -- The first header behind a seek is found, and the position then lags by the distance.
  seek-found :
      (front back : Bytes) (h : Header) (fuel n pos : ℕ) (r : R)
      → remaining r ≡ front ++ (h.bytes ++ back)
      → IsReadable h n
      → pos + length front + n + 2048 < 2 ^ 63
      → (r' : R) × (remaining r' ≡ back)
        × (poll_next_entry_raw io
              (suc fuel)
              none
              (seeking (pos + length front) (opened settings pos r))
            ≡ (
              seeking
                  (pos + length front + 512 + round_down (n + 511))
                  (opened settings (pos + 512) r'),
              ready (ok (some (entry_of settings h n (pos + length front)))),
            ))
  unfolding poll_next_entry_raw
  seek-found front back h fuel n pos r e m fits =
      let at = pos + length front in
      let (r1, place, e1, skipped) =
        poll_skip-seeking front (h.bytes ++ back) pos at (length front) r e refl
          (omega (arith, fits)) in
      let r2 = (io.poll_read r1 512).0 in
      let found =
        poll_block-header io remaining slice settings bare (seeking at (opened settings pos r))
          (length front) place (seeking at (opened settings pos r1))
          (opened settings (pos + 512) r2) h.bytes (omega arith) (omega arith) skipped
          (poll_try_read_all-opened io remaining slice settings h.bytes back pos r1 e1 m.block
            (omega (arith, fits)))
          m.some_byte (omega (arith, fits)) in
      (
        r2,
        remaining-read io remaining slice settings h.bytes back 512 r1 e1 m.block,
        rw (poll_header-found io fuel _ _ h found) (
            read_entry-plain io h n at (seeking (at + 512) (opened settings (pos + 512) r2)) m refl
              (omega (arith, fits))),
      )

  -- A seek that ends at a block of zeros ends the archive.
  seek-end :
      (front zeros back : Bytes) (fuel pos next : ℕ) (r : R)
      → remaining r ≡ front ++ (zeros ++ back)
      → length zeros ≡ 512
      → all_zero zeros ≡ true
      → next ≡ pos + length front
      → next + 512 < 2 ^ 63
      → (r' : R) × (remaining r' ≡ back)
        × (poll_next_entry_raw io (suc fuel) none (seeking next (opened settings pos r))
            ≡ (seeking next (opened settings (pos + 512) r'), ready (ok none)))
  unfolding poll_next_entry_raw
  seek-end front zeros back fuel pos next r e l z at fits =
      let (r1, place, e1, skipped) =
        poll_skip-seeking front (zeros ++ back) pos next (length front) r e refl
          (omega (arith, at, fits)) in
      let r2 = (io.poll_read r1 512).0 in
      let ended =
        poll_block-end io remaining slice settings bare (seeking next (opened settings pos r))
          (length front) place (seeking next (opened settings pos r1))
          (opened settings (pos + 512) r2) zeros (omega (arith, at)) (omega (arith, at)) skipped
          (poll_try_read_all-opened io remaining slice settings zeros back pos r1 e1 l
            (omega (arith, at, fits)))
          z refl in
      (
        r2,
        remaining-read io remaining slice settings zeros back 512 r1 e1 l,
        rw (poll_header-end io fuel _ _ ended) refl,
      )

  -- Where the archive seeks, a distance that is skipped in front of a header is skipped once more
  -- in front of the one after it, and what lies there is lost without an error. Some bytes are
  -- still to be passed over; behind them stand a readable header, its data padded to blocks, as
  -- many bytes again as the ones in front of the header, whatever they hold (a whole member,
  -- say), and a block of zeros. One call of `poll_next_entry_raw` gives the entry of the header,
  -- and the next one, from the state that the first leaves, does not look at the bytes behind the
  -- padded data: it takes the block of zeros and answers with the end of the archive. The archive
  -- does not ignore zeros, the next header is where the position and the bytes to pass over say,
  -- no block is under way, a seek passes over bytes as a read takes them, the reader fills every
  -- buffer as far as the bytes go, and the positions stay below `2 ^ 63`.
  pub poll_next_entry_raw-seek :
      (front padded missed zeros back : Bytes) (h : Header) (fuel n pos : ℕ) (r : R)
      → remaining r ≡ front ++ (h.bytes ++ (padded ++ (missed ++ (zeros ++ back))))
      → IsReadable h n
      → length padded ≡ round_down (n + 511)
      → length missed ≡ length front
      → length zeros ≡ 512
      → all_zero zeros ≡ true
      → pos + length front + n + 4096 < 2 ^ 63
      → (s s' : EntriesFields R) × (poll_next_entry_raw io
            (suc fuel)
            none
            (seeking (pos + length front) (opened settings pos r))
          ≡ (s, ready (ok (some (entry_of settings h n (pos + length front))))))
        × (poll_next_entry_raw io (suc fuel) none s ≡ (s', ready (ok none)))
        × (remaining s'.archive.obj ≡ back)
  poll_next_entry_raw-seek front padded missed zeros back h fuel n pos r e m wide same l z fits =
      let (r1, e1, found) =
        seek-found front (padded ++ (missed ++ (zeros ++ back))) h fuel n pos r e m
          (omega (arith, fits)) in
      let (r2, e2, ended) =
        seek-end (padded ++ missed) zeros back fuel (pos + 512)
          (pos + length front + 512 + round_down (n + 511)) r1
          (e1 ∙ sym (append_assoc padded missed (zeros ++ back))) l z
          (omega (arith, length-append padded missed, wide, same))
          (unfold round_down in omega (arith, fits)) in
      (_, _, found, ended, e2)
