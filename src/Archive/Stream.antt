-- ===== src/Archive/Stream.antt =====
-- A reader over bytes at hand, such as `&[u8]`: every read fills the buffer as far as the bytes go.
use async_tar_rs.Base.{
  ℕ, ◌+◌, ◌%◌, ◌^◌, ◌<◌, ◌≡◌, refl, ap, ◌∙◌, false, some, [], ◌∷◌, ◌++◌, Bytes, length, take, drop,
  arith, take-append, drop-append,
}
use async_tar_rs.Base.Result.{ok}
use async_tar_rs.Poll.{ready}
use async_tar_rs.Archive.Inner.{AsyncRead, ArchiveInner, Settings, poll_read, poll_try_read_all}
use native.Mathlib.Nat.{mod-eq_of_lt}

-- `remaining` is what the reader has not given yet.
pub record IsSlice {R : Type 0} (io : AsyncRead R) (remaining : R → Bytes) : Type 0 where
  pub filled : (r : R) (n : ℕ) → (io.poll_read r n).1 ≡ ready (ok (take n (remaining r)))
  pub rest : (r : R) (n : ℕ) → remaining (io.poll_read r n).0 ≡ drop n (remaining r)

-- The reader `&[u8]`.
abbrev pub byte_slice : AsyncRead Bytes
byte_slice = record {
  poll_read = λ r n. (drop n r, ready (ok (take n r)));
  poll_seek = λ r n. (drop n r, ready (ok n));
}

pub byte_slice-IsSlice : IsSlice byte_slice (λ r. r)
byte_slice-IsSlice = record { filled = λ r n. refl; rest = λ r n. refl }

-- An archive between two blocks.
abbrev pub opened : {R : Type 0} → Settings → ℕ → R → ArchiveInner R
opened settings pos obj = record {
  pos = pos;
  settings = settings;
  ignore_zeros = false;
  buf = [];
  obj = obj;
}

module _ {R : Type 0} (io : AsyncRead R) (remaining : R → Bytes) (slice : IsSlice io remaining)
    (settings : Settings) where
  pub poll_read-opened :
      (front back : Bytes) (n pos : ℕ) (r : R)
      → remaining r ≡ front ++ back
      → length front ≡ n
      → pos + n < 2 ^ 64
      → poll_read io n (opened settings pos r)
        ≡ (opened settings (pos + n) (io.poll_read r n).0, ready (ok front))
  unfolding poll_read
  poll_read-opened front back n pos r e l fits =
      let filled =
        slice.filled r n
        ∙ ap (λ (t : Bytes). ready (ok (take n t))) e
        ∙ ap (λ (t : Bytes). ready (ok t)) (take-append n front back l) in
      rw filled (ap (λ (p : ℕ). (opened settings p (io.poll_read r n).0, ready (ok front))) wrapped)
    where
      wrapped : (pos + length front) % 2 ^ 64 ≡ pos + n
      wrapped = ap (λ (k : ℕ). (pos + k) % 2 ^ 64) l ∙ mod-eq_of_lt fits

  pub remaining-read :
      (front back : Bytes) (n : ℕ) (r : R)
      → remaining r ≡ front ++ back
      → length front ≡ n
      → remaining (io.poll_read r n).0 ≡ back
  remaining-read front back n r e l = slice.rest r n ∙ ap (drop n) e ∙ drop-append n front back l

  pub poll_try_read_all-opened :
      (front back : Bytes) (pos : ℕ) (r : R)
      → remaining r ≡ front ++ back
      → length front ≡ 512
      → pos + 512 < 2 ^ 64
      → poll_try_read_all io 512 (opened settings pos r)
        ≡ (opened settings (pos + 512) (io.poll_read r 512).0, ready (ok (some front)))
  unfolding poll_try_read_all
  poll_try_read_all-opened [] back pos r e l fits = absurd (omega arith)
  poll_try_read_all-opened (f ∷ front) back pos r e l fits =
      rw (poll_read-opened (f ∷ front) back 512 pos r e l fits) (ground arith)
