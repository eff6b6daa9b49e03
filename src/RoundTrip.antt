-- ===== src/RoundTrip.antt =====
-- Writing an archive with `Builder` and reading it back with `Archive`.
pub mod Archives
pub mod LongNames
pub mod LongPaths
pub mod Files
use async_tar_rs.Base.{
  ℕ, zero, suc, ◌+◌, ◌-◌, ◌*◌, ◌/◌, ◌%◌, ◌^◌, ◌≤◌, ◌<◌, ◌≡◌, refl, sym, ap, ◌∙◌, Bool, true, false,
  Option, none, some, List, [], ◌∷◌, ◌++◌, Bytes, All, length, length-append, length-replicate,
  replicate, arith,
}
use async_tar_rs.Base.Result.{Result, ok, err}
use async_tar_rs.Poll.{Outcome, ready, out_of_fuel, M, ◌>>=◌, return, fail, after}
use async_tar_rs.Header.{Header}
use async_tar_rs.Archive.Inner.{AsyncRead, ArchiveInner, Settings}
use async_tar_rs.Archive.Entries.{EntriesFields, all_zero, round_down}
use async_tar_rs.Archive.Next.{poll_next}
use async_tar_rs.Archive.Stream.{IsSlice, opened}
use async_tar_rs.Archive.Raw.{between, bare, entry_of}
use async_tar_rs.Archive.Member.{IsReadable, poll_next_entry_raw-member, poll_next_entry_raw-end}
use async_tar_rs.Archive.Plain.{IsPlain, poll_next-plain, poll_next-end}
use async_tar_rs.Builder.Layout.{padding, member, members, trailer}
use async_tar_rs.Entry.Fields.{EntryFields, data_of}
use async_tar_rs.Entry.Read.{Cursor, poll_read_all}
use async_tar_rs.Entry.Whole.{cursor, poll_read_all-entry}
use mathlib.Core.List.{append_assoc}

module _ {R : Type 0} (io : AsyncRead R) (room : ℕ → ℕ) (rounds : ℕ) where
  -- A client that reads the data of an entry, which borrows the archive.
  unfoldable pub entry_data : EntryFields → M (EntriesFields R) Bytes
  entry_data f s =
      let end = poll_read_all io room rounds (cursor s.archive f.io_data f.read_state) in
      (record s { archive = (end.0).inner }, end.1)

  -- A client that takes every entry of the archive and reads its data.
  unfoldable pub read_archive : ℕ → M (EntriesFields R) (List (Header × Bytes))
  read_archive zero s = (s, out_of_fuel)
  read_archive (suc fuel) s =
      after
        (λ next. elim next [
          | none ↦ return []
          | some found ↦ elim found [
            | err e ↦ fail e
            | ok f ↦ do
              content ← entry_data f
              rest ← read_archive fuel
              return ((f.header, content) ∷ rest)
          ]
        ])
        (poll_next io room rounds s)

-- Headers that the reader takes for plain members with the given data.
pub record IsGood (rounds : ℕ) (m : Header × Bytes) : Type 0 where
  pub readable : IsReadable m.0 (length m.1)
  pub is_plain : IsPlain m.0
  pub fits : length m.1 < rounds

module _ {R : Type 0} (io : AsyncRead R) (remaining : R → Bytes) (slice : IsSlice io remaining)
    (room : ℕ → ℕ) (grows : (len : ℕ) → 0 < room len) (settings : Settings) (rounds : ℕ) where
  read_archive-step :
      (fuel : ℕ) (s s1 s2 s3 : EntriesFields R) (f : EntryFields) (c : Cursor R) (content : Bytes)
      (rest : List (Header × Bytes))
      → poll_next io room rounds s ≡ (s1, ready (ok (some (ok f))))
      → poll_read_all io room rounds (cursor s1.archive f.io_data f.read_state)
        ≡ (c, ready (ok content))
      → record s1 { archive = c.inner } ≡ s2
      → read_archive io room rounds fuel s2 ≡ (s3, ready (ok rest))
      → read_archive io room rounds (suc fuel) s ≡ (s3, ready (ok ((f.header, content) ∷ rest)))
  read_archive-step fuel s s1 s2 s3 f c content rest e1 e2 e3 e4 =
      unfold read_archive entry_data in rw (e1, e2, e3, e4) refl

  read_archive-end :
      (fuel : ℕ) (s s1 : EntriesFields R)
      → poll_next io room rounds s ≡ (s1, ready (ok none))
      → read_archive io room rounds (suc fuel) s ≡ (s1, ready (ok []))
  read_archive-end fuel s s1 e = unfold read_archive in rw e refl

zeros : Bytes
zeros = replicate 512 0

trailer-zeros : trailer ≡ zeros ++ zeros
unfolding zeros replicate
trailer-zeros = refl

length-zeros : length zeros ≡ 512
unfolding zeros replicate
length-zeros = refl

all_zero-zeros : all_zero zeros ≡ true
unfolding zeros replicate
all_zero-zeros = refl

member-append :
    (h : Header) (content : Bytes) (ms : List (Header × Bytes))
    → members ((h, content) ∷ ms) ++ trailer
      ≡ h.bytes ++ (content ++ (replicate (padding (length content)) 0 ++ (members ms ++ trailer)))
member-append h content ms = simp append_assoc

-- The next header stands behind the padding.
pub next_place : (at n : ℕ) → at + 512 + round_down (n + 511) ≡ at + 512 + n + padding n
unfolding round_down
next_place at n = omega arith

-- The bytes that an archive of these members takes, without the trailer.
abbrev pub extent : List (Header × Bytes) → ℕ
extent [] = 0
extent ((h, content) ∷ ms) = 1024 + length content + extent ms

module _ {R : Type 0} (io : AsyncRead R) (remaining : R → Bytes) (slice : IsSlice io remaining)
    (room : ℕ → ℕ) (grows : (len : ℕ) → 0 < room len) (settings : Settings) (rounds : ℕ) where
  read_archive-trailer :
      (fuel pos : ℕ) (r : R) (front : Bytes)
      → remaining r ≡ front ++ trailer
      → length front ≤ 511
      → pos + 2048 < 2 ^ 64
      → (s : EntriesFields R) × (read_archive io room
            (suc rounds)
            (suc fuel)
            (between (pos + length front) (opened settings pos r))
          ≡ (s, ready (ok [])))
  read_archive-trailer fuel pos r front e small fits =
      let (r', e', ended) =
        poll_next_entry_raw-end io remaining slice settings bare front zeros pos r
          (omega (arith, small)) rounds zeros (e ∙ ap (λ (t : Bytes). front ++ t) trailer-zeros)
          length-zeros all_zero-zeros (omega (arith, small, fits)) in
      (
        _,
        read_archive-end io remaining slice room grows settings (suc rounds) fuel _ _
            (poll_next-end io room rounds (pos + length front) _ _ ended),
      )

  read_archive-between :
      (ms : List (Header × Bytes)) (fuel pos : ℕ) (r : R) (front : Bytes)
      → All (IsGood (suc rounds)) ms
      → length ms < fuel
      → remaining r ≡ front ++ (members ms ++ trailer)
      → length front ≤ 511
      → pos + extent ms + 2048 < 2 ^ 64
      → (s : EntriesFields R) × (read_archive io room
            (suc rounds)
            fuel
            (between (pos + length front) (opened settings pos r))
          ≡ (s, ready (ok ms)))
  read_archive-between [] zero pos r front g f e small fits = absurd (omega arith)
  read_archive-between [] (suc fuel) pos r front g f e small fits =
      read_archive-trailer fuel pos r front e small (omega (arith, fits))
  read_archive-between (m ∷ ms) zero pos r front g f e small fits = absurd (omega arith)
  read_archive-between ((h, content) ∷ ms) (suc fuel) pos r front (g, gs) f e small fits =
      let n = length content in
      let at = pos + length front in
      let pad = replicate (padding n) 0 in
      let tail = members ms ++ trailer in
      let pad_is : length pad ≡ padding n = length-replicate (padding n) 0 in
      let laid : remaining r ≡ front ++ (h.bytes ++ (content ++ (pad ++ tail))) =
        e ∙ ap (λ (t : Bytes). front ++ t) (member-append h content ms) in
      let (r1, e1, found) =
        poll_next_entry_raw-member io remaining slice settings bare front (content ++ (pad ++ tail))
          pos r (omega (arith, small)) rounds n h laid g.readable (omega (arith, small, fits)) in
      let (r2, e2, whole) =
        poll_read_all-entry io remaining slice settings room grows (suc rounds) content
          (pad ++ tail) (at + 512) r1 g.fits e1 (omega (arith, small, fits)) in
      let (s, later) =
        read_archive-between ms fuel (at + 512 + n) r2 pad gs (omega (arith, f)) e2
          (omega (arith, pad_is)) (omega (arith, small, fits)) in
      (
        s,
        read_archive-step io remaining slice room grows settings (suc rounds) fuel _ _ _ s
            (entry_of settings h n at) _ content ms
            (poll_next-plain io room rounds at _ _ _ settings h n at g.is_plain found) whole
            (ap (λ (p : ℕ). between p (opened settings (at + 512 + n) r2))
              (next_place at n ∙ ap (λ (k : ℕ). at + 512 + n + k) (sym pad_is)))
            later,
      )
