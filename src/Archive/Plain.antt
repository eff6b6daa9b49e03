-- ===== src/Archive/Plain.antt =====
-- `poll_next` at a member that stands for itself.
use async_tar_rs.Base.{ℕ, suc, ◌≡◌, refl, true, false, none, some}
use async_tar_rs.Base.Result.{ok}
use async_tar_rs.Poll.{ready}
use async_tar_rs.EntryType.{is_gnu_sparse}
use async_tar_rs.Header.{Header, entry_type}
use async_tar_rs.Archive.Inner.{AsyncRead, ArchiveInner, Settings}
use async_tar_rs.Archive.Entries.{poll_next_entry_raw}
use async_tar_rs.Archive.Sparse.{poll_parse_sparse_header}
use async_tar_rs.Archive.Next.{
  plain, kind, take_entry, fetch_entry, next_entry_loop, poll_next_entry, poll_next,
}
use async_tar_rs.Archive.Raw.{between, entry_of}

-- A member that describes no other one and is not sparse.
pub record IsPlain (h : Header) : Type 0 where
  pub is_plain : kind h ≡ plain
  pub not_sparse : is_gnu_sparse (entry_type h) ≡ false

module _ {R : Type 0} (io : AsyncRead R) (room : ℕ → ℕ) (fuel : ℕ) (next : ℕ)
    (a : ArchiveInner R) where
  take_entry-plain :
      (next' : ℕ) (a' : ArchiveInner R) (settings : Settings) (h : Header) (n pos : ℕ)
      → IsPlain h
      → take_entry io room
          (suc fuel)
          (entry_of settings h n pos)
          (record (between next' a') { fields = some (entry_of settings h n pos) })
        ≡ (between next' a', ready (ok (some (entry_of settings h n pos))))
  unfolding take_entry poll_parse_sparse_header
  take_entry-plain next' a' settings h n pos p =
      rw (p.is_plain, p.not_sparse, take_entry, poll_parse_sparse_header) refl

  pub poll_next-plain :
      (next' : ℕ) (a' : ArchiveInner R) (settings : Settings) (h : Header) (n pos : ℕ)
      → IsPlain h
      → poll_next_entry_raw io (suc fuel) none (between next a)
        ≡ (between next' a', ready (ok (some (entry_of settings h n pos))))
      → poll_next io room (suc fuel) (between next a)
        ≡ (between next' a', ready (ok (some (ok (entry_of settings h n pos)))))
  unfolding poll_next poll_next_entry next_entry_loop fetch_entry
  poll_next-plain next' a' settings h n pos p e =
      rw (e, take_entry-plain next' a' settings h n pos p) refl

  pub poll_next-end :
      (a' : ArchiveInner R)
      → poll_next_entry_raw io (suc fuel) none (between next a) ≡ (between next a', ready (ok none))
      → poll_next io room (suc fuel) (between next a)
        ≡ (record (between next a') { done = true }, ready (ok none))
  unfolding poll_next poll_next_entry next_entry_loop fetch_entry
  poll_next-end a' e = rw e refl
