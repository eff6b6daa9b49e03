-- ===== src/Entry/Whole.antt =====
-- Reading the whole data of an entry, on a reader with the bytes at hand.
use async_tar_rs.Base.{
  ℕ, zero, suc, ◌+◌, ◌-◌, ◌^◌, ◌<◌, ◌≡◌, refl, sym, ap, ◌∙◌, Option, none, some, List, [], ◌∷◌,
  ◌++◌, Bytes, length, take, drop, min, arith, take-append-drop, length-take, length-drop,
}
use async_tar_rs.Base.Result.{ok}
use async_tar_rs.Poll.{ready}
use async_tar_rs.Archive.Inner.{AsyncRead, ArchiveInner, Settings}
use async_tar_rs.Archive.Stream.{IsSlice, opened, poll_read-opened, remaining-read}
use async_tar_rs.Entry.Fields.{EntryIo, data_of}
use async_tar_rs.Entry.Read.{Cursor, entry_poll_read, read_all_loop, poll_read_all}
use mathlib.Core.Path.{ap₂}
use mathlib.Core.List.{append-nil, append_assoc}

abbrev pub cursor : {R : Type 0} → ArchiveInner R → List EntryIo → Option EntryIo → Cursor R
cursor a rest s = record { inner = a; io_data = rest; read_state = s }

module _ {R : Type 0} (io : AsyncRead R) (remaining : R → Bytes) (slice : IsSlice io remaining)
    (settings : Settings) where
  -- A read in the only stretch of an entry.
  read_one :
      (front back : Bytes) (limit n m pos : ℕ) (r : R)
      → remaining r ≡ front ++ back
      → min (suc limit) n ≡ m
      → length front ≡ m
      → 0 < m
      → pos + m < 2 ^ 64
      → entry_poll_read io n (cursor (opened settings pos r) [] (some (data_of (suc limit)))) ≡ (
        cursor (opened settings (pos + m) (io.poll_read r m).0) [] (some (data_of (suc limit - m))),
        ready (ok front),
      )
  read_one [] back limit n m pos r e em l p fits = absurd (omega arith)
  read_one (f ∷ front) back limit n m pos r e em l p fits =
      unfold entry_poll_read in
      rw (em, poll_read-opened io remaining slice settings (f ∷ front) back m pos r e l fits)
        (ap
          (λ (k : ℕ). (
            cursor (opened settings (pos + m) (io.poll_read r m).0) []
                (some (data_of (suc limit - k))),
            ready (ok (f ∷ front)),
          ))
          l)

  loop_step :
      (room : ℕ → ℕ) (fuel : ℕ) (v front : Bytes) (c c' : Cursor R)
      → entry_poll_read io (room (length v)) c ≡ (c', ready (ok front))
      → 0 < length front
      → read_all_loop io room (suc fuel) v c ≡ read_all_loop io room fuel (v ++ front) c'
  loop_step room fuel v [] c c' e p = absurd (omega arith)
  loop_step room fuel v (f ∷ front) c c' e p = unfold read_all_loop in rw e refl

  -- An exhausted stretch, the last one, ends the entry.
  loop_end :
      (room : ℕ → ℕ) (fuel : ℕ) (v : Bytes) (a : ArchiveInner R)
      → read_all_loop io room (suc fuel) v (cursor a [] (some (data_of 0)))
        ≡ (cursor a [] none, ready (ok v))
  loop_end room fuel v a = unfold read_all_loop entry_poll_read in refl

  -- The loop from where `v` is read: it adds the rest of the bytes, in as many rounds as it takes.
  read_all_loop-stretch :
      (room : ℕ → ℕ)
      → ((len : ℕ) → 0 < room len)
      → (fuel : ℕ) (v bytes back : Bytes) (limit pos : ℕ) (r : R) → length bytes ≡ limit
      → limit < fuel
      → remaining r ≡ bytes ++ back
      → pos + limit < 2 ^ 64
      → (r' : R) × (remaining r' ≡ back)
        × (read_all_loop io room fuel v (cursor (opened settings pos r) [] (some (data_of limit)))
            ≡ (cursor (opened settings (pos + limit) r') [] none, ready (ok (v ++ bytes))))
  read_all_loop-stretch room grows zero v bytes back limit pos r l f e fits = absurd (omega arith)
  read_all_loop-stretch room grows (suc fuel) v (b ∷ bytes) back zero pos r l f e fits =
      absurd (omega arith)
  read_all_loop-stretch room grows (suc fuel) v [] back zero pos r l f e fits = (
    r,
    e,
    loop_end room fuel v (opened settings pos r)
        ∙ ap₂ (λ (p : ℕ) (t : Bytes). (cursor (opened settings p r) [] none, ready (ok t)))
            (omega arith) (sym (append-nil v)),
  )
  read_all_loop-stretch room grows (suc fuel) v bytes back (suc limit) pos r l f e fits =
      let n = room (length v) in
      let m = min (suc limit) n in
      let front = take m bytes in
      let rest = drop m bytes in
      let some_room = grows (length v) in
      let split : front ++ rest ≡ bytes = take-append-drop m bytes in
      let taken : length front ≡ m = omega (arith, length-take m bytes, l) in
      let split' : remaining r ≡ front ++ (rest ++ back) =
        e ∙ ap (λ (t : Bytes). t ++ back) (sym split) ∙ append_assoc front rest back in
      let (r', e', loop) =
        read_all_loop-stretch room grows fuel (v ++ front) rest back (suc limit - m) (pos + m)
          (io.poll_read r m).0 (omega (arith, length-drop m bytes, l)) (omega (arith, some_room))
          (remaining-read io remaining slice settings front (rest ++ back) m r split' taken)
          (omega (arith, fits)) in
      (
        r',
        e',
        loop_step room fuel v front _ _
              (read_one front (rest ++ back) limit n m pos r split' refl taken
                (omega (arith, some_room)) (omega (arith, fits)))
              (omega (arith, taken, some_room))
            ∙ loop
            ∙ ap₂ (λ (p : ℕ) (t : Bytes). (cursor (opened settings p r') [] none, ready (ok t)))
                (omega arith) (append_assoc v front rest ∙ ap (λ (t : Bytes). v ++ t) split),
      )

  -- On a fresh entry of one stretch of data that the reader has, `poll_read_all` ends with
  -- exactly that data and leaves the reader behind it, whatever positive room the vector offers
  -- at each growth. The rounds exceed the length of the data, the reader fills every buffer as
  -- far as the bytes go, and the positions stay below `2 ^ 64`.
  pub poll_read_all-entry :
      (room : ℕ → ℕ)
      → ((len : ℕ) → 0 < room len)
      → (fuel : ℕ) (bytes back : Bytes) (pos : ℕ) (r : R) → length bytes < fuel
      → remaining r ≡ bytes ++ back
      → pos + length bytes < 2 ^ 64
      → (r' : R) × (remaining r' ≡ back)
        × (poll_read_all io room fuel
              (cursor (opened settings pos r) (data_of (length bytes) ∷ []) none)
            ≡ (cursor (opened settings (pos + length bytes) r') [] none, ready (ok bytes)))
  poll_read_all-entry room grows zero bytes back pos r f e fits = absurd (omega arith)
  poll_read_all-entry room grows (suc fuel) bytes back pos r f e fits =
      let (r', e', loop) =
        read_all_loop-stretch room grows (suc fuel) [] bytes back (length bytes) pos r refl f e
          fits in
      (r', e', first_read (length bytes) fuel (opened settings pos r) ∙ loop)
    where
      first_read :
          (limit fuel : ℕ) (a : ArchiveInner R)
          → poll_read_all io room (suc fuel) (cursor a (data_of limit ∷ []) none)
            ≡ read_all_loop io room (suc fuel) [] (cursor a [] (some (data_of limit)))
      first_read limit fuel a = unfold poll_read_all entry_poll_read in refl
