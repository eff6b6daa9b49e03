-- ===== src/Archive/Inner.antt =====
-- `ArchiveInner`: the reader under an archive, with the position and the buffer of a header block
-- that arrived in parts. A single task polls, so the locks round the reader and the buffer are
-- free whenever they are tried.
use async_tar_rs.Base.{
  ℕ, ◌+◌, ◌-◌, ◌%◌, ◌^◌, Bool, true, false, Option, none, some, [], ◌∷◌, ◌++◌, Bytes, length, ◌==◌,
  ◌||◌, ltb, if◌then◌else◌,
}
use async_tar_rs.Base.Result.{ok, other, failed_block}
use async_tar_rs.Poll.{
  Outcome, ready, pending, panicked, M, ◌>>=◌, ◌>>◌, return, fail, read, modify, after,
}

-- The underlying reader, which src/ takes as a type parameter: `poll_read r n` gives the bytes put
-- into a buffer with room for `n`, and `poll_seek r n` seeks `n` bytes on from where the reader is.
pub record AsyncRead (R : Type 0) : Type 0 where
  pub poll_read : R → ℕ → R × Outcome Bytes
  pub poll_seek : R → ℕ → R × Outcome ℕ

-- The settings of an archive that its entries take over.
pub record Settings : Type 0 where
  pub mask : ℕ
  pub unpack_xattrs : Bool
  pub preserve_permissions : Bool
  pub preserve_ownerships : Bool
  pub preserve_mtime : Bool
  pub overwrite : Bool

pub record ArchiveInner (R : Type 0) : Type 0 where
  pub pos : ℕ
  pub settings : Settings
  pub ignore_zeros : Bool
  pub buf : Bytes
  pub obj : R

-- `Archive::new`
unfoldable pub new : {R : Type 0} → R → ArchiveInner R
new obj = record {
  pos = 0;
  settings = record {
    mask = 0;
    unpack_xattrs = false;
    preserve_permissions = false;
    preserve_ownerships = false;
    preserve_mtime = true;
    overwrite = true;
  };
  ignore_zeros = false;
  buf = [];
  obj = obj;
}

unfoldable pub set_ignore_zeros : {R : Type 0} → Bool → ArchiveInner R → ArchiveInner R
set_ignore_zeros b a = record a { ignore_zeros = b }

-- `copy_from_slice` on a whole buffer of `n` bytes panics unless the lengths agree.
abbrev copy_from_slice : {S : Type 0} → ℕ → Bytes → M S Bytes
copy_from_slice n src s = (s, if length src == n then ready (ok src) else panicked)

module _ {R : Type 0} (io : AsyncRead R) where
  -- The reader's state is kept whatever it answers; only a successful read moves `pos`.
  unfoldable pub poll_read : ℕ → M (ArchiveInner R) Bytes
  poll_read n a =
      after (λ bytes b. (record b { pos = (b.pos + length bytes) % 2 ^ 64 }, ready (ok bytes)))
        ((record a { obj = (io.poll_read a.obj n).0 }, (io.poll_read a.obj n).1))

  -- What follows a read of `filled` into the room `rem` of a block of `n` bytes. `none` is the end
  -- of the input. Where a part was buffered, `buf.copy_from_slice(sbuf)` takes it for the whole
  -- block, before the rest would be copied behind it.
  unfoldable pub block_read : ℕ → ℕ → Bytes → Bytes → M (ArchiveInner R) (Option Bytes)
  block_read n rem sbuf [] = elim sbuf [ [] ↦ return none | b ∷ rest ↦ fail (other failed_block) ]
  block_read n rem sbuf (f ∷ filled) =
      if length (f ∷ filled) == rem
      then (elim sbuf [
        | [] ↦ do block ← copy_from_slice n (f ∷ filled); return (some block)
        | b ∷ rest ↦ do
          modify (λ a. record a { buf = [] })
          whole ← copy_from_slice n (b ∷ rest)
          return (some whole)
      ])
      else (λ a. (record a { buf = sbuf ++ (f ∷ filled) }, pending))

  -- The version with the feature "tokio". What is left of the block goes through an array of 512
  -- bytes: a longer rest panics, as does a buffer that holds more than the block.
  unfoldable pub poll_try_read_all : ℕ → M (ArchiveInner R) (Option Bytes)
  unfolding poll_read block_read
  poll_try_read_all n = do
    sbuf ← read (λ a. a.buf)
    if ltb n (length sbuf) || ltb 512 (n - length sbuf) then (λ a. (a, panicked)) else return tt
    filled ← poll_read (n - length sbuf)
    block_read n (n - length sbuf) sbuf filled
