-- ===== src/Archive/Next.antt =====
-- `poll_next_entry` and `poll_next`: extension members describe the member behind them.
use async_tar_rs.Base.{
  ℕ, zero, suc, ◌+◌, Bool, true, false, ◌&&◌, ◌||◌, Option, none, some, Bytes, ltb, if◌then◌else◌,
}
use async_tar_rs.Base.Result.{
  Result, ok, err, other, no_future_member, two_long_names, two_pax_extensions,
}
use async_tar_rs.Poll.{
  Outcome, ready, pending, panicked, out_of_fuel, M, ◌>>=◌, ◌>>◌, return, fail, read, modify, after,
}
use async_tar_rs.EntryType.{is_gnu_longname, is_gnu_longlink, is_pax_local_extensions}
use async_tar_rs.Header.{Header, as_gnu, as_ustar, entry_type}
use async_tar_rs.Archive.Inner.{AsyncRead}
use async_tar_rs.Archive.Entries.{EntriesFields, poll_next_entry_raw}
use async_tar_rs.Archive.Sparse.{poll_parse_sparse_header}
use async_tar_rs.Entry.Fields.{EntryFields}
use async_tar_rs.Entry.Read.{Cursor, poll_read_all}

abbrev is_some {ℓ} : {A : Type ℓ} → Option A → Bool
is_some none = false
is_some (some a) = true

-- What the loop does with a member.
pub data Kind : Type 0 where
  longname longlink local_pax plain : Kind

unfoldable pub kind : Header → Kind
kind h =
    let recognized = is_some (as_gnu h) || is_some (as_ustar h) in
    if recognized && is_gnu_longname (entry_type h)
    then longname
    else if recognized && is_gnu_longlink (entry_type h)
    then longlink
    else if recognized && is_pax_local_extensions (entry_type h)
    then local_pax
    else plain

-- `room` is the allocator's choice in `poll_read_all`, and `rounds` bounds the inner loops.
module _ {R : Type 0} (io : AsyncRead R) (room : ℕ → ℕ) (rounds : ℕ) where
  -- A computation on the entry in `fields`, which keeps what was read of it.
  abbrev on_entry : {A : Type 0} → EntryFields → M (Cursor R) A → M (EntriesFields R) A
  on_entry f m s =
      let start : Cursor R = record {
        inner = s.archive;
        io_data = f.io_data;
        read_state = f.read_state;
      } in
      let end = (m start).0 in
      (
        record s {
          archive = end.inner;
          fields = some (record f { io_data = end.io_data; read_state = end.read_state });
        },
        (m start).1,
      )

  read_entry_data : EntryFields → M (EntriesFields R) Bytes
  read_entry_data f = on_entry f (poll_read_all io room rounds)

  -- One round of the loop with an entry at hand; `none` sends it round again.
  unfoldable pub take_entry : EntryFields → M (EntriesFields R) (Option EntryFields)
  unfolding read_entry_data
  take_entry f = elim (kind f.header) [
    | longname ↦ if is_some f.long_pathname then fail (other two_long_names) else do
      bytes ← read_entry_data f
      modify (λ s. record s { gnu_longname = some bytes; fields = none })
      return none
    | longlink ↦ if is_some f.long_linkname then fail (other two_long_names) else do
      bytes ← read_entry_data f
      modify (λ s. record s { gnu_longlink = some bytes; fields = none })
      return none
    | local_pax ↦ if is_some f.pax_extensions then fail (other two_pax_extensions) else do
      bytes ← read_entry_data f
      modify (λ s. record s { pax_extensions = some bytes; fields = none })
      return none
    | plain ↦ do
      f' ← poll_parse_sparse_header io rounds f
      longname' ← read (λ s. s.gnu_longname)
      longlink' ← read (λ s. s.gnu_longlink)
      pax ← read (λ s. s.pax_extensions)
      modify (λ s. record s {
        gnu_longname = none;
        gnu_longlink = none;
        pax_extensions = none;
        fields = none;
      })
      return (
          some (record f' {
            long_pathname = longname';
            long_linkname = longlink';
            pax_extensions = pax;
          }))
  ]

  -- A member that the entry at hand is to be read from; `none` at the end of the archive.
  unfoldable pub fetch_entry : ℕ → Option EntryFields → M (EntriesFields R) (Option EntryFields × ℕ)
  fetch_entry processed (some f) = return (some f, processed)
  fetch_entry processed none = do
    pax ← read (λ s. s.pax_extensions)
    found ← poll_next_entry_raw io rounds pax
    elim found [
      | some f ↦ do modify (λ s. record s { fields = some f }); return (some f, processed + 1)
      | none ↦
          if ltb 1 (processed + 1)
          then fail (other no_future_member)
          else return (none, processed + 1)
    ]

  unfoldable pub next_entry_loop : ℕ → ℕ → M (EntriesFields R) (Option EntryFields)
  next_entry_loop zero processed s = (s, out_of_fuel)
  next_entry_loop (suc fuel) processed s =
      after
        (λ found. elim found.0 [
          | none ↦ return none
          | some f ↦ do
            taken ← take_entry f
            elim taken [ some f' ↦ return (some f') | none ↦ next_entry_loop fuel found.1 ]
        ])
        (fetch_entry processed s.fields s)

  unfoldable pub next_entry_as : Bool → M (EntriesFields R) (Option EntryFields)
  next_entry_as true = poll_next_entry_raw io rounds none
  next_entry_as false = next_entry_loop rounds 0

  -- `poll_next_entry`
  unfoldable pub poll_next_entry : M (EntriesFields R) (Option EntryFields)
  unfolding next_entry_as
  poll_next_entry s = next_entry_as s.raw s

  -- What `Stream::poll_next` makes of the outcome: the end and an error both end the iteration.
  unfoldable pub settle :
      EntriesFields R × Outcome (Option EntryFields)
      → EntriesFields R × Outcome (Option (Result EntryFields))
  settle (s, ready (ok (some e))) = (s, ready (ok (some (ok e))))
  settle (s, ready (ok none)) = (record s { done = true }, ready (ok none))
  settle (s, ready (err e)) = (record s { done = true }, ready (ok (some (err e))))
  settle (s, pending) = (s, pending)
  settle (s, panicked) = (s, panicked)
  settle (s, out_of_fuel) = (s, out_of_fuel)

  unfoldable pub poll_next : M (EntriesFields R) (Option (Result EntryFields))
  unfolding settle
  poll_next s = if s.done then (s, ready (ok none)) else settle (poll_next_entry s)
