-- ===== src/Header/Sealed.antt =====
-- src/header.rs: `set_size` and `set_cksum`, as a client completes a header.
use async_tar_rs.Base.{
  ℕ, zero, suc, ◌-◌, ◌^◌, ◌<◌, ◌≡◌, refl, sym, ap, ◌∙◌, [], ◌∷◌, ◌++◌, Bytes, length, replicate,
  arith, All, All-append, All-mono, get_or, inl, inr, subst,
}
use async_tar_rs.Base.Slots.{overlay, splice, slice}
use async_tar_rs.Base.Bits.{set_top_bit}
use async_tar_rs.Base.Result.{ok, map_err, when, getting_size}
use async_tar_rs.Codec.{
  octal_into, num_field_wrapper_into, num_field_wrapper_from, numeric_extended_into, be_bytes,
  set_extension_bit,
}
use async_tar_rs.Codec.Octal.{octal_into_text, octal_text, octal_text-IsDigit}
use async_tar_rs.Text.Numbers.{IsDigit}
use async_tar_rs.EntryType
use async_tar_rs.Header.Layout.{Header, get, put, update, size_field, cksum_field, linkflag}
use async_tar_rs.Header.Fields.{entry_size, set_size, entry_type}
use async_tar_rs.Header.Checksum.{calculate_cksum, set_cksum}
use async_tar_rs.Header.Laws.{
  IsBlock, update-IsBlock, length-get, get-update-Apart, get_twelve, octal_into-KeepsLength,
  num_field-KeepsLength,
}
use async_tar_rs.Header.ChecksumLaws.{IsByte, take-All, drop-All}

-- `set_size` and then `set_cksum`.
abbrev pub sealed : ℕ → Header → Header
sealed n h = set_cksum (set_size n h)

pub overlay-IsByte :
    (slots vals : Bytes) → All IsByte slots → All IsByte vals → All IsByte (overlay slots vals)
unfolding overlay
overlay-IsByte [] vals h h' = tt
overlay-IsByte (x ∷ slots) [] h h' = h
overlay-IsByte (x ∷ slots) (v ∷ vals) (hx, h) (hv, h') = (hv, overlay-IsByte slots vals h h')

pub splice-IsByte :
    (off : ℕ) (vals bytes : Bytes)
    → All IsByte vals
    → All IsByte bytes
    → All IsByte (splice off vals bytes)
unfolding splice
splice-IsByte zero vals bytes h h' = overlay-IsByte bytes vals h' h
splice-IsByte (suc off) vals [] h h' = tt
splice-IsByte (suc off) vals (b ∷ bytes) h (hb, h') = (hb, splice-IsByte off vals bytes h h')

replicate-IsByte : (n b : ℕ) → b < 256 → All IsByte (replicate n b)
unfolding replicate
replicate-IsByte zero b h = tt
replicate-IsByte (suc n) b h = (h, replicate-IsByte n b h)

be_bytes-IsByte : (x src : ℕ) → All IsByte (be_bytes x src)
unfolding be_bytes
be_bytes-IsByte zero src = tt
be_bytes-IsByte (suc x) src = (omega arith, be_bytes-IsByte x src)

set_extension_bit-IsByte : (dst : Bytes) → All IsByte dst → All IsByte (set_extension_bit dst)
unfolding set_extension_bit
set_extension_bit-IsByte [] h = tt
set_extension_bit-IsByte (b ∷ dst) (hb, h) = (omega (arith, set_top_bit b hb), h)

pub octal_into-IsByte :
    (dst : Bytes) (k n : ℕ) → length dst ≡ suc k → n < 2 ^ 64 → All IsByte (octal_into dst n)
octal_into-IsByte dst k n e h = subst (All IsByte) (sym (octal_into_text dst k n e h)) (
    All-append IsByte (octal_text k n) (0 ∷ [])
      (All-mono IsByte IsDigit (octal_text k n) (octal_text-IsDigit k n) (λ b d. omega arith))
      (omega arith))

pub num_field_wrapper_into-IsByte :
    (dst : Bytes) (k n : ℕ)
    → length dst ≡ suc k
    → n < 2 ^ 64
    → All IsByte dst
    → All IsByte (num_field_wrapper_into dst n)
unfolding num_field_wrapper_into numeric_extended_into
num_field_wrapper_into-IsByte dst k n e h bytes = ground (
  arith,
  octal_into-IsByte dst k n e h,
  set_extension_bit-IsByte (overlay dst (replicate (length dst - 8) 0 ++ be_bytes 8 n)) (
      overlay-IsByte dst _ bytes (
        All-append IsByte (replicate (length dst - 8) 0) (be_bytes 8 n)
          (replicate-IsByte (length dst - 8) 0 (omega arith)) (be_bytes-IsByte 8 n))),
)

pub set_size-IsByte :
    (h : Header) (n : ℕ)
    → IsBlock h
    → n < 2 ^ 64
    → All IsByte h.bytes
    → All IsByte (set_size n h).bytes
unfolding set_size update put get slice
set_size-IsByte h n b u bytes =
    splice-IsByte 124 _ h.bytes
      (num_field_wrapper_into-IsByte (get size_field h) 11 n
        (length-get size_field h b (omega arith)) u
        (take-All IsByte 12 _ (drop-All IsByte 124 h.bytes bytes)))
      bytes

module _ (h : Header) (n : ℕ) (b : IsBlock h) (u : n < 2 ^ 64) where
  pub sealed-IsBlock : IsBlock (sealed n h)
  unfolding set_size set_cksum
  sealed-IsBlock = update-IsBlock cksum_field _ (set_size n h) (update-IsBlock size_field _ h b)

  pub set_size-IsBlock : IsBlock (set_size n h)
  unfolding set_size
  set_size-IsBlock = update-IsBlock size_field _ h b

  pub entry_size-sealed : entry_size (sealed n h) ≡ ok n
  unfolding entry_size set_cksum set_size
  entry_size-sealed =
      ap (λ (t : Bytes). map_err (when getting_size) (num_field_wrapper_from t))
        (get-update-Apart cksum_field _ (set_size n h) size_field set_size-IsBlock (omega arith)
          (omega arith) (octal_into-KeepsLength (calculate_cksum (set_size n h)))
          (inl (omega arith)))
      ∙ ap (map_err (when getting_size)) (get_twelve size_field h n b (omega arith) u refl)

  pub entry_type-sealed : entry_type (sealed n h) ≡ entry_type h
  unfolding entry_type set_cksum set_size
  entry_type-sealed =
      ap (λ (t : Bytes). EntryType.new (get_or t 0 0))
        (get-update-Apart cksum_field _ (set_size n h) linkflag set_size-IsBlock (omega arith)
            (omega arith) (octal_into-KeepsLength (calculate_cksum (set_size n h)))
            (inr (omega arith))
          ∙ get-update-Apart size_field _ h linkflag b (omega arith) (omega arith)
              (num_field-KeepsLength n) (inr (omega arith)))
