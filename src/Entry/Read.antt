-- ===== src/Entry/Read.antt =====
-- Reading the data of an entry: `Read` of `EntryIo` and of `EntryFields`, and `poll_read_all`.
use async_tar_rs.Base.{
  ℕ, zero, suc, ◌-◌, Option, none, some, List, [], ◌∷◌, ◌++◌, Bytes, length, replicate, min,
}
use async_tar_rs.Poll.{out_of_fuel, M, ◌>>=◌, ◌>>◌, return, modify, after}
use async_tar_rs.Archive.Inner.{AsyncRead, ArchiveInner, poll_read}
use async_tar_rs.Entry.Fields.{EntryIo, pad, data_of}

-- The archive that an entry reads from, and the entry's own cursor.
pub record Cursor (R : Type 0) : Type 0 where
  pub inner : ArchiveInner R
  pub io_data : List EntryIo
  pub read_state : Option EntryIo

module _ {R : Type 0} (io : AsyncRead R) where
  -- A computation on the archive, which the cursor keeps also when it stops early.
  abbrev pub on_inner : {A : Type 0} → M (ArchiveInner R) A → M (Cursor R) A
  on_inner m c = (record c { inner = (m c.inner).0 }, (m c.inner).1)

  -- `EntryIo::poll_read`: `io::Take` reads no more than its limit and nothing at a limit of 0. The
  -- stretch that is read is the cursor's.
  unfoldable pub poll_read_io : EntryIo → ℕ → M (Cursor R) Bytes
  unfolding poll_read
  poll_read_io (pad limit) n = do
    modify (λ c. record c { read_state = some (pad (limit - min limit n)) })
    return (replicate (min limit n) 0)
  poll_read_io (data_of zero) n = return []
  poll_read_io (data_of (suc limit)) n = do
    filled ← on_inner (poll_read io (min (suc limit) n))
    modify (λ c. record c { read_state = some (data_of (suc limit - length filled)) })
    return filled

  -- The loop of `EntryFields::poll_read` from where a stretch is at hand; the list is `data`. Where
  -- a read gives nothing the next stretch takes its place.
  unfoldable pub read_stretches : EntryIo → List EntryIo → ℕ → M (Cursor R) Bytes
  unfolding poll_read_io
  read_stretches s [] n = do
    filled ← poll_read_io s n
    elim filled [
      | [] ↦ do modify (λ c. record c { read_state = none }); return []
      | b ∷ bytes ↦ return (b ∷ bytes)
    ]
  read_stretches s (next ∷ rest) n = do
    filled ← poll_read_io s n
    elim filled [
      | [] ↦ do
        modify (λ c. record c { read_state = some next; io_data = rest })
        read_stretches next rest n
      | b ∷ bytes ↦ return (b ∷ bytes)
    ]

  unfoldable pub start_read : Option EntryIo → List EntryIo → ℕ → M (Cursor R) Bytes
  start_read (some s) rest n = read_stretches s rest n
  start_read none [] n = return []
  start_read none (next ∷ rest) n = do
    modify (λ c. record c { read_state = some next; io_data = rest })
    read_stretches next rest n

  -- `EntryFields::poll_read`
  unfoldable pub entry_poll_read : ℕ → M (Cursor R) Bytes
  unfolding start_read read_stretches
  entry_poll_read n c = start_read c.read_state c.io_data n c

  -- `poll_read_all_internal` with a vector that has `room len` free bytes when `len` are filled:
  -- the allocator's choice, and at least one byte.
  unfoldable pub read_all_loop : (ℕ → ℕ) → ℕ → Bytes → M (Cursor R) Bytes
  unfolding entry_poll_read
  read_all_loop room zero v c = (c, out_of_fuel)
  read_all_loop room (suc fuel) v c =
      after
        (λ filled. elim filled [
          | [] ↦ return v
          | b ∷ bytes ↦ read_all_loop room fuel (v ++ (b ∷ bytes))
        ])
        (entry_poll_read (room (length v)) c)

  -- `EntryFields::poll_read_all`: what was read is lost where a read is pending.
  unfoldable pub poll_read_all : (ℕ → ℕ) → ℕ → M (Cursor R) Bytes
  unfolding read_all_loop
  poll_read_all room fuel = read_all_loop room fuel []
