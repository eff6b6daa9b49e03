-- ===== src/RoundTrip/Archives.antt =====
-- The archive that `Builder` writes, read by `Archive`, from the first byte to the last.
use async_tar_rs.Base.{
  ℕ, suc, ◌+◌, ◌^◌, ◌<◌, ◌≡◌, refl, ap, ◌∙◌, false, List, [], ◌∷◌, ◌++◌, Bytes, All, length, arith,
}
use async_tar_rs.Base.Result.{ok}
use async_tar_rs.Poll.{ready}
use async_tar_rs.Header.{Header, entry_type}
use async_tar_rs.Header.Laws.{IsBlock}
use async_tar_rs.Header.ChecksumLaws.{IsByte}
use async_tar_rs.Header.Sealed.{sealed}
use async_tar_rs.Archive.Inner
use async_tar_rs.Archive.Inner.{AsyncRead}
use async_tar_rs.Archive.Entries.{EntriesFields, entries}
use async_tar_rs.Archive.Stream.{IsSlice, opened}
use async_tar_rs.Archive.Raw.{between}
use async_tar_rs.Archive.Sealed.{IsOrdinary, sealed-IsReadable, sealed-IsPlain}
use async_tar_rs.Builder.Append
use async_tar_rs.Builder.Append.{AsyncWrite, Builder}
use async_tar_rs.Builder.Layout.{IsVec, members, trailer, write_archive, write_archive-members}
use async_tar_rs.RoundTrip.{IsGood, extent, read_archive, read_archive-between}

-- A member that a client may append: 512 bytes of header of an ordinary type, and its data.
pub record IsMember (rounds : ℕ) (m : Header × Bytes) : Type 0 where
  pub block : IsBlock m.0
  pub bytes : All IsByte m.0.bytes
  pub ordinary : IsOrdinary (entry_type m.0)
  pub fits : length m.1 < rounds

-- The members with their headers completed.
abbrev pub seal_all : List (Header × Bytes) → List (Header × Bytes)
seal_all [] = []
seal_all ((h, content) ∷ ms) = (sealed (length content) h, content) ∷ seal_all ms

extent-seal_all : (ms : List (Header × Bytes)) → extent (seal_all ms) ≡ extent ms
extent-seal_all [] = refl
extent-seal_all ((h, content) ∷ ms) = ap (λ (k : ℕ). 1024 + length content + k) (extent-seal_all ms)

length-seal_all : (ms : List (Header × Bytes)) → length (seal_all ms) ≡ length ms
length-seal_all [] = refl
length-seal_all (m ∷ ms) = ap suc (length-seal_all ms)

seal_all-IsGood :
    (rounds : ℕ) (ms : List (Header × Bytes))
    → All (IsMember rounds) ms
    → extent ms < 2 ^ 64
    → All (IsGood rounds) (seal_all ms)
seal_all-IsGood rounds [] g u = tt
seal_all-IsGood rounds ((h, content) ∷ ms) (g, gs) u = (
  record {
    readable = sealed-IsReadable h (length content) g.block g.bytes (omega (arith, u));
    is_plain = sealed-IsPlain h (length content) g.block (omega (arith, u)) g.ordinary;
    fits = g.fits;
  },
  seal_all-IsGood rounds ms gs (omega (arith, u)),
)

module _ {W R : Type 0} (wio : AsyncWrite W) (written : W → Bytes) (vec : IsVec wio written)
    (rio : AsyncRead R) (remaining : R → Bytes) (slice : IsSlice rio remaining)
    (from_bytes : Bytes → R) (at_start : (b : Bytes) → remaining (from_bytes b) ≡ b) (room : ℕ → ℕ)
    (grows : (len : ℕ) → 0 < room len) where
  -- A fresh builder over a writer that keeps every byte and holds none writes every member and
  -- the trailer without an error, and a fresh archive over the bytes written, opened without
  -- seeking on a reader that fills every buffer as far as the bytes go, yields the same headers
  -- with the same data, in order, and then ends without an error. The headers are blocks of 512
  -- bytes, each below 256, of a type that describes no other member and is not GNU sparse,
  -- completed by `set_size` with the length of the data and by `set_cksum`; the rounds of the
  -- loops exceed the length of each datum, those of the client exceed the number of members,
  -- every growth of the vector makes room for a byte at least, and the archive is shorter than `2
  -- ^ 64` bytes.
  pub read_archive-write_archive :
      (rounds fuel : ℕ) (ms : List (Header × Bytes)) (w : W)
      → All (IsMember (suc rounds)) ms
      → length ms < fuel
      → extent ms + 2048 < 2 ^ 64
      → written w ≡ []
      → (b : Builder W) × (write_archive wio (seal_all ms) (Append.new w) ≡ (b, ready (ok tt)))
        × (start : EntriesFields R) × (entries false (Inner.new (from_bytes (written b.obj)))
            ≡ ok start)
        × (s : EntriesFields R) × (read_archive rio room (suc rounds) fuel start
            ≡ (s, ready (ok (seal_all ms))))
  read_archive-write_archive rounds fuel ms w g f u empty =
      let (b, wrote, kept) =
        write_archive-members wio written vec (seal_all ms) (Append.new w) not_finished in
      let r = from_bytes (written b.obj) in
      let laid : remaining r ≡ members (seal_all ms) ++ trailer =
        at_start (written b.obj)
        ∙ kept
        ∙ ap (λ (t : Bytes). t ++ (members (seal_all ms) ++ trailer)) (fresh w empty) in
      let (s, all_read) =
        read_archive-between rio remaining slice room grows (Inner.new r).settings rounds
          (seal_all ms) fuel 0 r [] (seal_all-IsGood (suc rounds) ms g (omega (arith, u)))
          (omega (arith, length-seal_all ms, f)) laid (omega arith)
          (omega (arith, extent-seal_all ms, u)) in
      (b, wrote, _, opens r, s, all_read)
    where
      not_finished : (Append.new w).finished ≡ false
      not_finished = unfold Append.new in refl

      fresh : (w : W) → written w ≡ [] → written (Append.new w).obj ≡ []
      fresh w e = unfold Append.new in e

      opens :
          (r : R) → entries false (Inner.new r) ≡ ok (between 0 (opened (Inner.new r).settings 0 r))
      opens r = unfold entries Inner.new in refl
