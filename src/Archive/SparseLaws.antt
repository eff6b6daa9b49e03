-- ===== src/Archive/SparseLaws.antt =====
-- src/archive.rs, `poll_parse_sparse_header`: what a sparse entry is made of.
use async_tar_rs.Base.{
  ℕ, zero, suc, ◌≡◌, refl, ap, ◌∙◌, Bool, true, false, not, Option, none, some, [], Bytes, ltb,
  ◌==◌, if◌then◌else◌, arith, Bool-cases, inl, inr, get_or,
}
use async_tar_rs.Base.Result.{Result, ok, err}
use async_tar_rs.Poll.{Outcome, ready, pending, panicked, out_of_fuel, M, after}
use async_tar_rs.Header.{
  Header, as_gnu, is_gnu, entry_type, is_extended, real_size, get, sparse_field,
}
use async_tar_rs.EntryType.{is_gnu_sparse}
use async_tar_rs.Entry.Fields.{EntryFields}
use async_tar_rs.Archive.Inner.{AsyncRead, poll_try_read_all}
use async_tar_rs.Archive.Entries.{EntriesFields, on_archive, advance_next}
use async_tar_rs.Archive.Sparse.{
  Blocks, add_blocks, block_headers, while_extended, take_extension, read_extensions, extend,
  conclude, parse_gnu, poll_parse_sparse_header,
}
use async_tar_rs.Archive.Stretches.{
  total, from_archive, IsLaid, OnOk, OnReady, on_after, add_blocks-IsLaid,
}

anything : {A : Type 0} (o : Outcome A) → OnReady (λ a. Unit {0}) o
anything (ready (ok a)) = tt
anything (ready (err e)) = tt
anything pending = tt
anything panicked = tt
anything out_of_fuel = tt

on_if :
    {S A : Type 0} (Q : A → Type 0) (b : Bool) (x y : M S A) (s : S)
    → OnReady Q (x s).1
    → OnReady Q (y s).1
    → OnReady Q ((if b then x else y) s).1
on_if Q true x y s p q = p
on_if Q false x y s p q = q

-- What `poll_parse_sparse_header` makes of the entry `e`.
pub record IsParsed (e e' : EntryFields) : Type 0 where
  pub same_header : e'.header ≡ e.header
  pub whole : total e'.io_data ≡ e'.size
  pub of_member : from_archive e'.io_data ≡ e.size
  pub listed : real_size e.header ≡ ok e'.size

module _ {R : Type 0} (io : AsyncRead R) where
  while_extended-IsLaid :
      (size : ℕ) (next : Blocks → M (EntriesFields R) Blocks) (ext : Bytes) (st : Blocks)
      (s : EntriesFields R)
      → OnReady (IsLaid size) (next st s).1
      → IsLaid size st
      → OnReady (IsLaid size) (while_extended io next ext st s).1
  while_extended-IsLaid size next ext st s n l = elim (Bool-cases (get_or ext 504 0 == 1)) [
    | inl b ↦ rw b n
    | inr b ↦ rw b l
  ]

  take_extension-IsLaid :
      (size : ℕ) (next : Blocks → M (EntriesFields R) Blocks) (st : Blocks) (block : Option Bytes)
      (s : EntriesFields R)
      → ((st' : Blocks) (s' : EntriesFields R)
          → IsLaid size st'
          → OnReady (IsLaid size) (next st' s').1)
      → IsLaid size st
      → OnReady (IsLaid size) (take_extension io size next st block s).1
  take_extension-IsLaid size next st none s n l = tt
  take_extension-IsLaid size next st (some ext) s n l =
      on_after (λ _. Unit {0}) (IsLaid size)
        (λ _ s1.
          after (while_extended io next ext)
            (s1, ready (add_blocks size st (block_headers 21 ext))))
        (advance_next io s) (anything _)
        λ _ s1 _.
          on_after (IsLaid size) (IsLaid size) (while_extended io next ext)
            (s1, ready (add_blocks size st (block_headers 21 ext)))
            (add_blocks-IsLaid size (block_headers 21 ext) st l)
            λ st' s' l'. while_extended-IsLaid size next ext st' s' (n st' s' l') l'

  read_extensions-IsLaid :
      (size fuel : ℕ) (st : Blocks) (s : EntriesFields R)
      → IsLaid size st
      → OnReady (IsLaid size) (read_extensions io size fuel st s).1
  unfolding read_extensions
  read_extensions-IsLaid size zero st s l = tt
  read_extensions-IsLaid size (suc fuel) st s l =
      on_after (λ block. Unit {0}) (IsLaid size)
        (take_extension io size (read_extensions io size fuel) st)
        (on_archive io (poll_try_read_all io 512) s) (anything _)
        λ block s1 _.
          take_extension-IsLaid size (read_extensions io size fuel) st block s1
            (λ st' s' l'. read_extensions-IsLaid size fuel st' s' l') l

  extend-IsLaid :
      (size fuel : ℕ) (gnu : Header) (st : Blocks) (s : EntriesFields R)
      → IsLaid size st
      → OnReady (IsLaid size) (extend io size fuel gnu st s).1
  extend-IsLaid size fuel gnu st s l = elim (Bool-cases (is_extended gnu)) [
    | inl b ↦ rw b (read_extensions-IsLaid size fuel st s l)
    | inr b ↦ rw b l
  ]

  conclude-IsParsed :
      (e : EntryFields) (st : Blocks) (real : ℕ) (s : EntriesFields R)
      → IsLaid e.size st
      → real_size e.header ≡ ok real
      → OnReady (IsParsed e) (conclude io e st real s).1
  conclude-IsParsed e st real s l listed = elim (Bool-cases (not (st.cur == real))) [
    | inl b ↦ rw b tt
    | inr b ↦ elim (Bool-cases (ltb 0 st.remaining)) [
      | inl c ↦ rw (b, c) tt
      | inr c ↦
          rw (b, c)
            (record {
              same_header = refl;
              whole = l.reached;
              of_member = (let sum = l.taken in ground arith);
              listed =
                  listed ∙ ap (λ (k : ℕ). ok k) (let same : real ≡ st.cur = ground arith in same);
            })
    ]
  ]

  real_size-listed : (h : Header) → OnOk (λ real. real_size h ≡ ok real) (real_size h)
  real_size-listed h = same (real_size h)
    where
      same : (r : Result ℕ) → OnOk (λ real. r ≡ ok real) r
      same (ok real) = refl
      same (err x) = tt

  parse_gnu-IsParsed :
      (fuel : ℕ) (e : EntryFields) (s : EntriesFields R)
      → OnReady (IsParsed e) (parse_gnu io fuel e e.header s).1
  parse_gnu-IsParsed fuel e s =
      on_after (IsLaid e.size) (IsParsed e)
        (λ st s1.
          after (λ st' s2. after (conclude io e st') (s2, ready (real_size e.header)))
            (extend io e.size fuel e.header st s1))
        (s, ready (add_blocks e.size start (block_headers 4 (get sparse_field e.header))))
        (add_blocks-IsLaid e.size _ start
          (record { reached = refl; taken = omega arith; bounded = omega arith }))
        λ st s1 l.
          on_after (IsLaid e.size) (IsParsed e)
            (λ st' s2. after (conclude io e st') (s2, ready (real_size e.header)))
            (extend io e.size fuel e.header st s1) (extend-IsLaid e.size fuel e.header st s1 l)
            λ st' s2 l'.
              on_after (λ real. real_size e.header ≡ ok real) (IsParsed e) (conclude io e st')
                (s2, ready (real_size e.header)) (real_size-listed e.header)
                λ real s3 listed. conclude-IsParsed e st' real s3 l' listed
    where
      start : Blocks
      start = record { stretches = []; cur = 0; remaining = e.size }

  -- Whatever the reader gives, where `poll_parse_sparse_header` succeeds on a sparse member, the
  -- stretches of the entry it gives add up to its size, their data to the size of the member, the
  -- size is the one that the GNU header lists, and the header is the same.
  pub poll_parse_sparse_header-IsParsed :
      (fuel : ℕ) (e : EntryFields) (s : EntriesFields R)
      → is_gnu_sparse (entry_type e.header) ≡ true
      → OnReady (IsParsed e) (poll_parse_sparse_header io fuel e s).1
  poll_parse_sparse_header-IsParsed fuel e s sparse = elim (Bool-cases (is_gnu e.header)) [
    | inl b ↦ unfold poll_parse_sparse_header as_gnu in rw (sparse, b) (parse_gnu-IsParsed fuel e s)
    | inr b ↦ unfold poll_parse_sparse_header as_gnu in rw (sparse, b) tt
  ]
