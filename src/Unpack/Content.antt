-- ===== src/Unpack/Content.antt =====
-- src/entry.rs, `unpack`: what a file holds when the stretches of its entry are written.
use async_tar_rs.Base.{
  ℕ, zero, suc, ◌+◌, ◌-◌, ◌^◌, ◌<◌, ◌≡◌, refl, sym, ap, ◌∙◌, none, List, [], ◌∷◌, ◌++◌, Bytes,
  length, take, drop, replicate, min, arith, take-append-drop, length-append, length-take,
  length-drop, subst,
}
use async_tar_rs.Base.Integers
use async_tar_rs.Base.Result.{ok}
use async_tar_rs.Poll.{ready}
use async_tar_rs.Archive.Inner.{AsyncRead, Settings}
use async_tar_rs.Archive.Stream.{IsSlice, opened, poll_read-opened, remaining-read}
use async_tar_rs.Entry.Fields.{EntryIo}
use async_tar_rs.Unpack.System.{write, seek_by, set_len, FileSystem, World, run}
use async_tar_rs.Unpack.File.{copy_loop}
use mathlib.Core.Path.{ap₂}
use mathlib.Core.List.{append-nil, append_assoc}

-- An open file that is written from its start on, up to `2 ^ 63` bytes: `At c fs` says that it holds `c` and is at the
-- end of it; `Sought c n fs`, that it holds `c` and is at `n`.
pub record IsFile {F : Type 0} (sys : FileSystem F) (fd : ℕ) (At : Bytes → F → Type 0)
    (Sought : Bytes → ℕ → F → Type 0) : Type 0 where
  pub written :
      (c b : Bytes) (fs : F)
      → length c + length b < 2 ^ 63
      → At c fs
      → (fs' : F) × (n : ℕ) × (sys.call (write fd b) fs ≡ (fs', ok n)) × At (c ++ b) fs'
  pub sought :
      (c : Bytes) (n : ℕ) (fs : F)
      → length c + n < 2 ^ 63
      → At c fs
      → (fs' : F) × (sys.call (seek_by fd (Integers.pos n)) fs ≡ (fs', ok (length c + n)))
        × Sought c (length c + n) fs'
  pub extended :
      (c : Bytes) (n : ℕ) (fs : F)
      → length c + n < 2 ^ 63
      → Sought c (length c + n) fs
      → (fs' : F) × (m : ℕ) × (sys.call (set_len fd (length c + n)) fs ≡ (fs', ok m))
        × At (c ++ replicate n 0) fs'

module _ {R F : Type 0} (io : AsyncRead R) (remaining : R → Bytes) (slice : IsSlice io remaining)
    (settings : Settings) (sys : FileSystem F) (fd : ℕ) (At : Bytes → F → Type 0)
    (Sought : Bytes → ℕ → F → Type 0) (is_file : IsFile sys fd At Sought) (chunk : ℕ)
    (some_room : 0 < chunk) (room : ℕ → ℕ) (queue : List EntryIo) where
  -- The entry's reader at a place of the archive, and the file system.
  abbrev pub world : ℕ → R → F → World R F
  world pos r fs = record {
    cursor = record { inner = opened settings pos r; io_data = queue; read_state = none };
    fs = fs;
  }

  copy_step :
      (fuel limit total m pos : ℕ) (front back : Bytes) (r : R) (fs fs' : F) (n : ℕ)
      → remaining r ≡ front ++ back
      → min (suc limit) chunk ≡ m
      → length front ≡ m
      → 0 < m
      → pos + m < 2 ^ 64
      → sys.call (write fd front) fs ≡ (fs', ok n)
      → copy_loop io sys chunk room (suc fuel) fd (suc limit) total (world pos r fs)
        ≡ copy_loop io sys chunk room fuel fd
            (suc limit - m)
            (total + m)
            (world (pos + m) (io.poll_read r m).0 fs')
  copy_step fuel limit total m pos [] back r fs fs' n e em l p fits w = absurd (omega arith)
  copy_step fuel limit total m pos (f ∷ front) back r fs fs' n e em l p fits w =
      unfold copy_loop run in
      rw (em, poll_read-opened io remaining slice settings (f ∷ front) back m pos r e l fits, w)
        (ap
          (λ (k : ℕ).
            copy_loop io sys chunk room fuel fd (suc limit - k) (total + k)
              (world (pos + m) (io.poll_read r m).0 fs'))
          l)

  -- The loop copies what the limit says, whatever the buffer holds at a time.
  pub copy_loop-data :
      (fuel total : ℕ) (bytes back c : Bytes) (limit pos : ℕ) (r : R) (fs : F)
      → length bytes ≡ limit
      → limit < fuel
      → length c + limit < 2 ^ 63
      → remaining r ≡ bytes ++ back
      → pos + limit < 2 ^ 64
      → At c fs
      → (r' : R) × (fs' : F) × (remaining r' ≡ back)
        × At (c ++ bytes) fs'
        × (copy_loop io sys chunk room fuel fd limit total (world pos r fs)
            ≡ (world (pos + limit) r' fs', ready (ok (total + limit))))
  copy_loop-data zero total bytes back c limit pos r fs l f short e fits at = absurd (omega arith)
  copy_loop-data (suc fuel) total (b ∷ bytes) back c zero pos r fs l f short e fits at =
      absurd (omega arith)
  copy_loop-data (suc fuel) total [] back c zero pos r fs l f short e fits at = (
    r,
    fs,
    e,
    subst (λ (t : Bytes). At t fs) (sym (append-nil c)) at,
    unfold copy_loop in ap₂ (λ (p t : ℕ). (world p r fs, ready (ok t))) (omega arith) (omega arith),
  )
  copy_loop-data (suc fuel) total bytes back c (suc limit) pos r fs l f short e fits at =
      let m = min (suc limit) chunk in
      let front = take m bytes in
      let rest = drop m bytes in
      let split : front ++ rest ≡ bytes = take-append-drop m bytes in
      let taken : length front ≡ m = omega (arith, length-take m bytes, l) in
      let split' : remaining r ≡ front ++ (rest ++ back) =
        e ∙ ap (λ (t : Bytes). t ++ back) (sym split) ∙ append_assoc front rest back in
      let (fs1, n, wrote, at1) = is_file.written c front fs (omega (arith, taken, short)) at in
      let (r', fs', e', at', loop) =
        copy_loop-data fuel (total + m) rest back (c ++ front) (suc limit - m) (pos + m)
          (io.poll_read r m).0 fs1 (omega (arith, length-drop m bytes, l))
          (omega (arith, some_room)) (omega (arith, length-append c front, taken, short))
          (remaining-read io remaining slice settings front (rest ++ back) m r split' taken)
          (omega (arith, fits)) at1 in
      (
        r',
        fs',
        e',
        subst (λ (t : Bytes). At t fs')
            (append_assoc c front rest ∙ ap (λ (t : Bytes). c ++ t) split) at',
        copy_step fuel limit total m pos front (rest ++ back) r fs fs1 n split' refl taken
              (omega (arith, some_room)) (omega (arith, fits)) wrote
            ∙ loop
            ∙ ap₂ (λ (p t : ℕ). (world p r' fs', ready (ok t))) (omega arith) (omega arith),
      )
