-- ===== src/Archive/Member.antt =====
-- `poll_next_entry_raw` at a member, and at the end of an archive.
use async_tar_rs.Base.{
  ℕ, zero, suc, ◌+◌, ◌^◌, ◌≤◌, ◌<◌, ◌≡◌, refl, ap, true, false, none, some, ◌++◌, Bytes, length,
  ltb, arith, ◌==◌,
}
use async_tar_rs.Base.Result.{ok}
use async_tar_rs.Poll.{ready}
use async_tar_rs.Header.{Header, cksum, entry_size}
use async_tar_rs.Archive.Inner.{AsyncRead, Settings}
use async_tar_rs.Archive.Entries.{
  EntriesFields, all_zero, block_sum, round_down, apply_pax, pax_data_size, poll_block, poll_header,
  read_entry, poll_next_entry_raw,
}
use async_tar_rs.Archive.Stream.{IsSlice, opened, remaining-read, poll_try_read_all-opened}
use async_tar_rs.Archive.Raw.{
  Held, holding, entry_of, poll_skip-between, poll_block-header, poll_block-end,
}

-- What a reader asks of a header in front of `n` bytes of data.
pub record IsReadable (h : Header) (n : ℕ) : Type 0 where
  pub block : length h.bytes ≡ 512
  pub some_byte : all_zero h.bytes ≡ false
  pub checksum : cksum h ≡ ok (block_sum h)
  pub listed : entry_size h ≡ ok n

pax_data_size-none : (n : ℕ) → pax_data_size none n ≡ n
unfolding pax_data_size
pax_data_size-none zero = refl
pax_data_size-none (suc n) = refl

module _ {R : Type 0} (io : AsyncRead R) where
  pub read_entry-plain :
      (h : Header) (n pos : ℕ) (s : EntriesFields R)
      → IsReadable h n
      → s.next ≡ pos + 512
      → s.next + n + 512 < 2 ^ 64
      → read_entry io none h pos s ≡ (
        record s { next = s.next + round_down (n + 511) },
        ready (ok (some (entry_of s.archive.settings h n pos))),
      )
  unfolding read_entry apply_pax
  read_entry-plain h n pos s m at fits =
      rw
        (
          m.checksum,
          let same : (block_sum h == block_sum h) ≡ true = ground arith in same,
          m.listed,
          pax_data_size-none n,
          let one : ltb (n + 511) (2 ^ 64) ≡ true = ground arith in one,
          let two : ltb (s.next + round_down (n + 511)) (2 ^ 64) ≡ true =
                unfold round_down in ground arith in
              two,
        )
        (ap
          (λ (p : ℕ). (
            record s { next = s.next + round_down (n + 511) },
            ready (ok (some (record (entry_of s.archive.settings h n pos) { file_pos = p }))),
          ))
          at)

  pub poll_header-found :
      (fuel : ℕ) (s s' : EntriesFields R) (h : Header)
      → poll_block io s ≡ (s', ready (ok (false, some h)))
      → poll_header io (suc fuel) s ≡ (s', ready (ok (some (h, s.next))))
  unfolding poll_header
  poll_header-found fuel s s' h e = rw e refl

  pub poll_header-end :
      (fuel : ℕ) (s s' : EntriesFields R)
      → poll_block io s ≡ (s', ready (ok (false, none)))
      → poll_header io (suc fuel) s ≡ (s', ready (ok none))
  unfolding poll_header
  poll_header-end fuel s s' e = rw e refl

  module _ (remaining : R → Bytes) (slice : IsSlice io remaining) (settings : Settings)
      (held : Held) (front back : Bytes) (pos : ℕ) (r : R) (small : length front ≤ 32768) where
    -- At a position where up to 32768 bytes of the member before are left, followed by a readable
    -- header (512 bytes, not all zero, with its own checksum, and a size field of `n`),
    -- `poll_next_entry_raw` without PAX records skips what is left and yields the entry of that
    -- header, of size `n` and with its data right behind the header; the next header is expected
    -- behind the data rounded up to blocks. The reader fills every buffer as far as the bytes go,
    -- and the positions stay below `2 ^ 64`.
    pub poll_next_entry_raw-member :
        (fuel n : ℕ) (h : Header)
        → remaining r ≡ front ++ (h.bytes ++ back)
        → IsReadable h n
        → pos + length front + n + 1024 < 2 ^ 64
        → (r' : R) × (remaining r' ≡ back)
          × (poll_next_entry_raw io
                (suc fuel)
                none
                (holding held (pos + length front) (opened settings pos r))
              ≡ (
                holding held
                    (pos + length front + 512 + round_down (n + 511))
                    (opened settings (pos + length front + 512) r'),
                ready (ok (some (entry_of settings h n (pos + length front)))),
              ))
    unfolding poll_next_entry_raw
    poll_next_entry_raw-member fuel n h e m fits =
        let at = pos + length front in
        let (r1, e1, skipped) =
          poll_skip-between io remaining slice settings held front (h.bytes ++ back) pos at r e
            small (omega (arith, fits)) in
        let r2 = (io.poll_read r1 512).0 in
        let found =
          poll_block-header io remaining slice settings held
            (holding held at (opened settings pos r)) (length front) (length front)
            (holding held at (opened settings at r1)) (opened settings (at + 512) r2) h.bytes
            (omega arith) (omega arith) skipped
            (poll_try_read_all-opened io remaining slice settings h.bytes back at r1 e1 m.block
              (omega (arith, fits)))
            m.some_byte (omega (arith, fits)) in
        (
          r2,
          remaining-read io remaining slice settings h.bytes back 512 r1 e1 m.block,
          rw (poll_header-found fuel _ _ h found) (
              read_entry-plain h n at (holding held (at + 512) (opened settings (at + 512) r2)) m
                refl (omega (arith, fits))),
        )

    -- At a position where up to 32768 bytes of the member before are left, followed by a block of
    -- zeros, in an archive that does not ignore zeros, `poll_next_entry_raw` skips what is left,
    -- takes the block and answers with the end. The reader fills every buffer as far as the bytes
    -- go, and the positions stay below `2 ^ 64`.
    pub poll_next_entry_raw-end :
        (fuel : ℕ) (zeros : Bytes)
        → remaining r ≡ front ++ (zeros ++ back)
        → length zeros ≡ 512
        → all_zero zeros ≡ true
        → pos + length front + 512 < 2 ^ 64
        → (r' : R) × (remaining r' ≡ back)
          × (poll_next_entry_raw io
                (suc fuel)
                none
                (holding held (pos + length front) (opened settings pos r))
              ≡ (
                holding held (pos + length front) (opened settings (pos + length front + 512) r'),
                ready (ok none),
              ))
    unfolding poll_next_entry_raw
    poll_next_entry_raw-end fuel zeros e l z fits =
        let at = pos + length front in
        let (r1, e1, skipped) =
          poll_skip-between io remaining slice settings held front (zeros ++ back) pos at r e small
            (omega (arith, fits)) in
        let r2 = (io.poll_read r1 512).0 in
        let ended =
          poll_block-end io remaining slice settings held (holding held at (opened settings pos r))
            (length front) (length front) (holding held at (opened settings at r1))
            (opened settings (at + 512) r2) zeros (omega arith) (omega arith) skipped
            (poll_try_read_all-opened io remaining slice settings zeros back at r1 e1 l
              (omega (arith, fits)))
            z refl in
        (
          r2,
          remaining-read io remaining slice settings zeros back 512 r1 e1 l,
          rw (poll_header-end fuel _ _ ended) refl,
        )
