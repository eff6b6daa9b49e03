-- ===== src/Unpack/Spread.antt =====
-- src/entry.rs, `unpack`: data and holes, as the stretches of an entry are written.
use async_tar_rs.Base.{
  ℕ, ◌+◌, ◌^◌, ◌<◌, ◌≡◌, refl, sym, ap, ◌∙◌, true, List, [], ◌∷◌, ◌++◌, Bytes, length, take, drop,
  replicate, arith, take-append-drop, length-append, length-replicate, length-take, length-drop,
  ◌==◌, subst,
}
use async_tar_rs.Base.Integers
use async_tar_rs.Base.Integers.{as_i64_small}
use async_tar_rs.Base.Result.{ok, map_ok}
use async_tar_rs.Poll.{ready, after}
use async_tar_rs.Archive.Inner.{AsyncRead, Settings}
use async_tar_rs.Archive.Stream.{IsSlice}
use async_tar_rs.Archive.Stretches.{total, from_archive}
use async_tar_rs.Entry.Fields.{EntryIo, pad, data_of}
use async_tar_rs.Unpack.System.{seek_by, set_len, FileSystem, World, calling, run}
use async_tar_rs.Unpack.File.{write_stretch, write_stretches}
use mathlib.Core.List.{append-nil, append_assoc}
use async_tar_rs.Unpack.Content.{IsFile, world, copy_loop-data}

-- What the file is to hold: the data in its stretches, and zeros in the holes.
unfoldable pub spread : List EntryIo → Bytes → Bytes
spread [] bytes = []
spread (data_of n ∷ stretches) bytes = take n bytes ++ spread stretches (drop n bytes)
spread (pad n ∷ stretches) bytes = replicate n 0 ++ spread stretches bytes

spread_data :
    (n : ℕ) (stretches : List EntryIo) (bytes : Bytes)
    → spread (data_of n ∷ stretches) bytes ≡ take n bytes ++ spread stretches (drop n bytes)
unfolding spread
spread_data n stretches bytes = refl

spread_pad :
    (n : ℕ) (stretches : List EntryIo) (bytes : Bytes)
    → spread (pad n ∷ stretches) bytes ≡ replicate n 0 ++ spread stretches bytes
unfolding spread
spread_pad n stretches bytes = refl

module _ {R F : Type 0} (io : AsyncRead R) (remaining : R → Bytes) (slice : IsSlice io remaining)
    (settings : Settings) (sys : FileSystem F) (fd : ℕ) (At : Bytes → F → Type 0)
    (Sought : Bytes → ℕ → F → Type 0) (is_file : IsFile sys fd At Sought) (chunk : ℕ)
    (some_room : 0 < chunk) (room : ℕ → ℕ) (queue : List EntryIo) where
  abbrev pub at_place : ℕ → R → F → World R F
  at_place = world io remaining slice settings sys fd At Sought is_file chunk some_room room queue

  copied_all : (k : ℕ) → (0 + k == k) ≡ true
  copied_all k = ground arith

  write_stretch-data :
      (fuel n : ℕ) (bytes back c : Bytes) (pos : ℕ) (r : R) (fs : F)
      → length bytes ≡ n
      → n < fuel
      → length c + n < 2 ^ 63
      → remaining r ≡ bytes ++ back
      → pos + n < 2 ^ 64
      → At c fs
      → (r' : R) × (fs' : F) × (remaining r' ≡ back)
        × At (c ++ bytes) fs'
        × (write_stretch io sys chunk room fuel fd (data_of n) (at_place pos r fs)
            ≡ (at_place (pos + n) r' fs', ready (ok tt)))
  write_stretch-data fuel n bytes back c pos r fs l f short e fits at =
      let (r', fs', e', at', loop) =
        copy_loop-data io remaining slice settings sys fd At Sought is_file chunk some_room room
          queue fuel 0 bytes back c n pos r fs l f short e fits at in
      (r', fs', e', at', unfold write_stretch in rw (loop, copied_all n) refl)

  pad_step :
      (fuel n size m : ℕ) (w w1 w2 : World R F)
      → n < 2 ^ 63
      → calling sys (seek_by fd (Integers.pos n)) w ≡ (w1, ready (ok size))
      → run sys (set_len fd size) w1 ≡ (w2, ready (ok tt))
      → write_stretch io sys chunk room fuel fd (pad n) w ≡ (w2, ready (ok tt))
  unfolding write_stretch
  pad_step fuel n size m w w1 w2 small e1 e2 =
      ap (after (λ k. run sys (set_len fd k)))
        (ap (λ k. calling sys (seek_by fd k) w) (as_i64_small n small) ∙ e1)
      ∙ e2

  write_stretch-pad :
      (fuel n : ℕ) (c : Bytes) (pos : ℕ) (r : R) (fs : F)
      → length c + n < 2 ^ 63
      → At c fs
      → (fs' : F) × At (c ++ replicate n 0) fs'
        × (write_stretch io sys chunk room fuel fd (pad n) (at_place pos r fs)
            ≡ (at_place pos r fs', ready (ok tt)))
  write_stretch-pad fuel n c pos r fs short at =
      let (fs1, e1, there) = is_file.sought c n fs short at in
      let (fs2, m, e2, at2) = is_file.extended c n fs1 short there in
      (
        fs2,
        at2,
        pad_step fuel n (length c + n) m (at_place pos r fs) (at_place pos r fs1)
            (at_place pos r fs2) (omega (arith, short))
            (unfold calling in ap (λ x. (at_place pos r x.0, ready x.1)) e1)
            (unfold run in ap (λ x. (at_place pos r x.0, ready (map_ok (λ _. tt) x.1))) e2),
      )

  stretches_step :
      (fuel : ℕ) (s : EntryIo) (stretches : List EntryIo) (w w' : World R F)
      → write_stretch io sys chunk room fuel fd s w ≡ (w', ready (ok tt))
      → write_stretches io sys chunk room fuel fd (s ∷ stretches) w
        ≡ write_stretches io sys chunk room fuel fd stretches w'
  unfolding write_stretches
  stretches_step fuel s stretches w w' e = rw e refl

  -- Where a file is written from its start on and takes every write, seek and change of length,
  -- and the archive has the data of the stretches at hand, the stretches of an entry are all
  -- written: the file holds the data, in order, with zeros in the holes, and the reader stands
  -- behind the data. The stretches, holes included, and what the file holds already come to less
  -- than `2 ^ 63` bytes. The rounds exceed the data, the buffer of the copy has room, the reader
  -- fills every buffer as far as the bytes go, and the positions stay below `2 ^ 64`.
  pub write_stretches-spread :
      (fuel : ℕ) (stretches : List EntryIo) (bytes back c : Bytes) (pos : ℕ) (r : R) (fs : F)
      → length bytes ≡ from_archive stretches
      → length bytes < fuel
      → length c + total stretches < 2 ^ 63
      → remaining r ≡ bytes ++ back
      → pos + length bytes < 2 ^ 64
      → At c fs
      → (r' : R) × (fs' : F) × (remaining r' ≡ back)
        × At (c ++ spread stretches bytes) fs'
        × (write_stretches io sys chunk room fuel fd stretches (at_place pos r fs)
            ≡ (at_place (pos + length bytes) r' fs', ready (ok tt)))
  write_stretches-spread fuel [] (b ∷ bytes) back c pos r fs l f short e fits at =
      absurd (omega arith)
  write_stretches-spread fuel [] [] back c pos r fs l f short e fits at = (
    r,
    fs,
    e,
    unfold spread in subst (λ (t : Bytes). At t fs) (sym (append-nil c)) at,
    unfold write_stretches in ap (λ (p : ℕ). (at_place p r fs, ready (ok tt))) (omega arith),
  )
  write_stretches-spread fuel (pad n ∷ stretches) bytes back c pos r fs l f short e fits at =
      let (fs1, at1, e1) = write_stretch-pad fuel n c pos r fs (omega (arith, short)) at in
      let (r', fs', e', at', loop) =
        write_stretches-spread fuel stretches bytes back (c ++ replicate n 0) pos r fs1 l f
          (omega (arith, length-append c (replicate n 0), length-replicate {A = ℕ} n 0, short)) e
          fits at1 in
      (
        r',
        fs',
        e',
        subst (λ (t : Bytes). At t fs')
            (append_assoc c (replicate n 0) (spread stretches bytes)
              ∙ ap (λ (t : Bytes). c ++ t) (sym (spread_pad n stretches bytes)))
            at',
        stretches_step fuel (pad n) stretches (at_place pos r fs) (at_place pos r fs1) e1 ∙ loop,
      )
  write_stretches-spread fuel (data_of n ∷ stretches) bytes back c pos r fs l f short e fits at =
      let front = take n bytes in
      let rest = drop n bytes in
      let split : front ++ rest ≡ bytes = take-append-drop n bytes in
      let taken : length front ≡ n = omega (arith, length-take n bytes, l) in
      let left : length rest + n ≡ length bytes = omega (arith, length-drop n bytes, l) in
      let split' : remaining r ≡ front ++ (rest ++ back) =
        e ∙ ap (λ (t : Bytes). t ++ back) (sym split) ∙ append_assoc front rest back in
      let (r1, fs1, e1, at1, wrote) =
        write_stretch-data fuel n front (rest ++ back) c pos r fs taken (omega (arith, left, f))
          (omega (arith, short)) split' (omega (arith, left, fits)) at in
      let (r', fs', e', at', loop) =
        write_stretches-spread fuel stretches rest back (c ++ front) (pos + n) r1 fs1
          (omega (arith, left, l)) (omega (arith, left, f))
          (omega (arith, length-append c front, taken, short)) e1 (omega (arith, left, fits)) at1 in
      (
        r',
        fs',
        e',
        subst (λ (t : Bytes). At t fs')
            (append_assoc c front (spread stretches rest)
              ∙ ap (λ (t : Bytes). c ++ t) (sym (spread_data n stretches bytes)))
            at',
        stretches_step fuel (data_of n) stretches (at_place pos r fs) (at_place (pos + n) r1 fs1)
              wrote
            ∙ loop
            ∙ ap (λ (p : ℕ). (at_place p r' fs', ready (ok tt))) (omega (arith, left)),
      )
