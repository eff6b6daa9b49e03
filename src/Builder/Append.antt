-- ===== src/Builder/Append.antt =====
-- `Builder`, `append` and `finish`, over any writer.
use async_tar_rs.Base.{
  ℕ, ◌-◌, ◌%◌, Bool, true, false, Option, none, some, Bytes, length, replicate, ltb, if◌then◌else◌,
}
use async_tar_rs.Base.Result.{Error}
use async_tar_rs.Poll.{Outcome, M, ◌>>=◌, ◌>>◌, return, fail, read, modify}
use async_tar_rs.Header.{Header}
use async_tar_rs.Header.Metadata.{HeaderMode, complete}

-- The underlying writer, which src/ takes as a type parameter. It may fail having written a part.
pub record AsyncWrite (W : Type 0) : Type 0 where
  pub write_all : W → Bytes → W × Outcome (Unit {0})

-- What `io::copy` reads from a source of data: its bytes, and the error that it ends with, if any.
pub record Source : Type 0 where
  pub content : Bytes
  pub failure : Option Error

pub record Builder (W : Type 0) : Type 0 where
  pub mode : HeaderMode
  pub follow : Bool
  pub finished : Bool
  pub obj : W

-- `Builder::new`
unfoldable pub new : {W : Type 0} → W → Builder W
new obj = record { mode = complete; follow = true; finished = false; obj = obj }

unfoldable pub set_mode : {W : Type 0} → HeaderMode → Builder W → Builder W
set_mode m b = record b { mode = m }

unfoldable pub follow_symlinks : {W : Type 0} → Bool → Builder W → Builder W
follow_symlinks f b = record b { follow = f }

module _ {W : Type 0} (io : AsyncWrite W) where
  -- `io::copy`, with the number of bytes copied.
  unfoldable pub copy : Source → M W ℕ
  copy src = do
    λ w. io.write_all w src.content
    elim src.failure [ none ↦ return (length src.content) | some e ↦ fail e ]

  -- The function `append`: the header, the data, and zeros up to a multiple of 512.
  unfoldable pub append : Header → Source → M W (Unit {0})
  unfolding copy
  append header src = do
    λ w. io.write_all w header.bytes
    len ← copy src
    let remaining = 512 - len % 512
    if ltb remaining 512 then (λ w. io.write_all w (replicate remaining 0)) else return tt

  abbrev pub on_obj : {A : Type 0} → M W A → M (Builder W) A
  on_obj m b = (record b { obj = (m b.obj).0 }, (m b.obj).1)

  -- `Builder::append`
  unfoldable pub builder_append : Header → Source → M (Builder W) (Unit {0})
  unfolding append
  builder_append header src = on_obj (append header src)

  -- `Builder::finish` writes the two blocks of zeros once.
  unfoldable pub finish_at : Bool → M (Builder W) (Unit {0})
  finish_at true = return tt
  finish_at false = do
    modify (λ b. record b { finished = true })
    on_obj (λ w. io.write_all w (replicate 1024 0))

  unfoldable pub finish : M (Builder W) (Unit {0})
  unfolding finish_at
  finish b = finish_at b.finished b

  -- `Builder::into_inner`
  unfoldable pub into_inner : M (Builder W) W
  unfolding finish
  into_inner = do finish; read (λ b. b.obj)
