-- ===== src/Archive/Fused.antt =====
-- src/archive.rs, `Stream::poll_next`: how the iteration ends.
use async_tar_rs.Base.{
  ℕ, ◌≡◌, refl, sym, ap, ◌∙◌, Bool, true, false, Option, none, some, Bool-cases, inl, inr,
}
use async_tar_rs.Base.Result.{Result, ok, err}
use async_tar_rs.Poll.{Outcome, ready, pending, panicked, out_of_fuel}
use async_tar_rs.Entry.Fields.{EntryFields}
use async_tar_rs.Archive.Inner.{AsyncRead}
use async_tar_rs.Archive.Entries.{EntriesFields}
use async_tar_rs.Archive.Next.{poll_next, poll_next_entry, settle}

-- The end of the stream, or an error.
abbrev pub ends : Outcome (Option (Result EntryFields)) → Bool
ends (ready (ok none)) = true
ends (ready (ok (some (ok e)))) = false
ends (ready (ok (some (err e)))) = true
ends (ready (err e)) = false
ends pending = false
ends panicked = false
ends out_of_fuel = false

module _ {R : Type 0} (io : AsyncRead R) (room : ℕ → ℕ) (rounds : ℕ) where
  poll_next-done :
      (s : EntriesFields R) → s.done ≡ true → poll_next io room rounds s ≡ (s, ready (ok none))
  unfolding poll_next
  poll_next-done s e = rw e refl

  settle-done :
      (o : EntriesFields R × Outcome (Option EntryFields))
      → ends (settle io room rounds o).1 ≡ true
      → (settle io room rounds o).0.done ≡ true
  unfolding settle
  settle-done (s, ready (ok none)) e = refl
  settle-done (s, ready (ok (some f))) e = absurd (cc e)
  settle-done (s, ready (err x)) e = refl
  settle-done (s, pending) e = absurd (cc e)
  settle-done (s, panicked) e = absurd (cc e)
  settle-done (s, out_of_fuel) e = absurd (cc e)

  ended :
      (s : EntriesFields R)
      → ends (poll_next io room rounds s).1 ≡ true
      → (poll_next io room rounds s).0.done ≡ true
  ended s e = elim (Bool-cases s.done) [
    | inl d ↦
        ap (λ (p : EntriesFields R × Outcome (Option (Result EntryFields))). p.0.done)
          (poll_next-done s d)
        ∙ d
    | inr d ↦
        let now : poll_next io room rounds s
            ≡ settle io room rounds (poll_next_entry io room rounds s) =
          unfold poll_next in rw d refl in
        ap (λ (p : EntriesFields R × Outcome (Option (Result EntryFields))). p.0.done) now
        ∙ settle-done (poll_next_entry io room rounds s) (
            ap (λ (p : EntriesFields R × Outcome (Option (Result EntryFields))). ends p.1) (sym now)
            ∙ e)
  ]

  -- Once `poll_next` has answered with the end or with an error, it answers with the end and
  -- changes nothing, whatever the reader and the state.
  pub poll_next-fused :
      (s : EntriesFields R)
      → ends (poll_next io room rounds s).1 ≡ true
      → poll_next io room rounds (poll_next io room rounds s).0
        ≡ ((poll_next io room rounds s).0, ready (ok none))
  poll_next-fused s e = poll_next-done (poll_next io room rounds s).0 (ended s e)
