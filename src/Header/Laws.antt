-- ===== src/Header/Laws.antt =====
-- The laws of fields in a block of 512 bytes.
use async_tar_rs.Base.{
  ℕ, ◌+◌, ◌%◌, ◌^◌, ◌≤◌, ◌<◌, ◌≡◌, ap, ◌∙◌, ◌⊎◌, inl, inr, Bytes, length, arith,
}
use async_tar_rs.Base.Slots.{length-splice, length-slice, slice-splice, slice-splice_apart}
use async_tar_rs.Base.Result.{ok}
use async_tar_rs.Codec.{octal_from, octal_into, num_field_wrapper_into, num_field_wrapper_from}
use async_tar_rs.Codec.Octal.{octal_from-octal_into, length-octal_into}
use async_tar_rs.Codec.Numeric.{num_field_twelve, num_field_eight, length-num_field_wrapper_into}
use async_tar_rs.Header.Layout.{Header, Part, get, put, update}

-- The type `[u8; 512]`, as far as lengths go.
abbrev pub IsBlock : Header → Type 0
IsBlock h = length h.bytes ≡ 512

abbrev pub Inside : Part → Type 0
Inside p = p.off + p.len ≤ 512

-- Two fields that share no byte.
abbrev pub Apart : Part → Part → Type 0
Apart p q = (p.off + p.len ≤ q.off) ⊎ (q.off + q.len ≤ p.off)

pub put-IsBlock : (p : Part) (vals : Bytes) (h : Header) → IsBlock h → IsBlock (put p vals h)
unfolding put
put-IsBlock p vals h b = length-splice p.off vals h.bytes ∙ b

pub update-IsBlock :
    (p : Part) (f : Bytes → Bytes) (h : Header) → IsBlock h → IsBlock (update p f h)
unfolding update
update-IsBlock p f h b = put-IsBlock p (f (get p h)) h b

pub length-get : (p : Part) (h : Header) → IsBlock h → Inside p → length (get p h) ≡ p.len
unfolding get
length-get p h b i = length-slice p.off p.len h.bytes (omega arith)

pub get-put :
    (p : Part) (vals : Bytes) (h : Header)
    → IsBlock h
    → Inside p
    → length vals ≡ p.len
    → get p (put p vals h) ≡ vals
unfolding get put
get-put p vals h b i e = slice-splice p.off p.len vals h.bytes e (omega arith)

pub get-put-Apart :
    (q p : Part) (vals : Bytes) (h : Header)
    → Apart q p
    → length vals ≡ p.len
    → get q (put p vals h) ≡ get q h
unfolding get put
get-put-Apart q p vals h (inl a) e = slice-splice_apart q.off q.len p.off vals h.bytes (inl a)
get-put-Apart q p vals h (inr a) e =
    slice-splice_apart q.off q.len p.off vals h.bytes (inr (omega arith))

-- A function that fills a field keeps its length.
abbrev pub KeepsLength : (Bytes → Bytes) → Type 0
KeepsLength f = (dst : Bytes) → 0 < length dst → length (f dst) ≡ length dst

pub octal_into-KeepsLength : (n : ℕ) → KeepsLength (λ dst. octal_into dst n)
octal_into-KeepsLength n dst pos = length-octal_into dst n

pub num_field-KeepsLength : (n : ℕ) → KeepsLength (λ dst. num_field_wrapper_into dst n)
num_field-KeepsLength n dst pos = length-num_field_wrapper_into dst n pos

module _ (p : Part) (f : Bytes → Bytes) (h : Header) where
  pub get-update :
      IsBlock h → Inside p → 0 < p.len → KeepsLength f → get p (update p f h) ≡ f (get p h)
  unfolding update
  get-update b i pos keep =
      let n = length-get p h b i in
      get-put p (f (get p h)) h b i (keep (get p h) (omega (arith, n)) ∙ n)

  pub get-update-Apart :
      (q : Part)
      → IsBlock h
      → Inside p
      → 0 < p.len
      → KeepsLength f
      → Apart q p
      → get q (update p f h) ≡ get q h
  unfolding update
  get-update-Apart q b i pos keep a =
      let n = length-get p h b i in
      get-put-Apart q p (f (get p h)) h a (keep (get p h) (omega (arith, n)) ∙ n)

-- What each kind of numeric field reads back.
module _ (p : Part) (h : Header) (n : ℕ) (b : IsBlock h) (i : Inside p) (u : n < 2 ^ 64) where
  pub get_twelve :
      p.len ≡ 12
      → num_field_wrapper_from (get p (update p (λ dst. num_field_wrapper_into dst n) h)) ≡ ok n
  get_twelve e =
      ap num_field_wrapper_from (get-update p _ h b i (omega arith) (num_field-KeepsLength n))
      ∙ num_field_twelve (get p h) n (length-get p h b i ∙ e) u

  pub get_eight :
      p.len ≡ 8
      → num_field_wrapper_from (get p (update p (λ dst. num_field_wrapper_into dst n) h))
        ≡ ok (n % 2 ^ 63)
  get_eight e =
      ap num_field_wrapper_from (get-update p _ h b i (omega arith) (num_field-KeepsLength n))
      ∙ num_field_eight (get p h) n (length-get p h b i ∙ e) u

  pub get_octal :
      p.len ≡ 8 → octal_from (get p (update p (λ dst. octal_into dst n) h)) ≡ ok (n % 8 ^ 7)
  get_octal e =
      ap octal_from (get-update p _ h b i (omega arith) (octal_into-KeepsLength n))
      ∙ octal_from-octal_into (get p h) 6 n (length-get p h b i ∙ e) u
