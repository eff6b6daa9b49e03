-- ===== src/Header/Filled.antt =====
-- src/header.rs: what is kept of a header while its other fields are filled in.
use async_tar_rs.Base.{ℕ, suc, ◌^◌, ◌<◌, ◌≡◌, refl, ◌∙◌, inl, inr, [], ◌∷◌, Bytes, All, arith}
use async_tar_rs.Base.Slots.{slice}
use async_tar_rs.Codec.{octal_into, num_field_wrapper_into}
use async_tar_rs.EntryType.{EntryType, as_byte}
use async_tar_rs.Header.Layout.{
  Header, Part, get, put, update, name, magic, version, linkflag, is_ustar, is_gnu,
}
use async_tar_rs.Header.Fields.{set_entry_type}
use async_tar_rs.Header.Laws.{
  IsBlock, Inside, Apart, KeepsLength, update-IsBlock, put-IsBlock, length-get, get-update-Apart,
  get-put-Apart, octal_into-KeepsLength, num_field-KeepsLength,
}
use async_tar_rs.Header.ChecksumLaws.{IsByte, take-All, drop-All}
use async_tar_rs.Header.Sealed.{splice-IsByte, octal_into-IsByte, num_field_wrapper_into-IsByte}

-- A header of another format than UStar is still one, with the same name.
pub record IsFilled (h h' : Header) : Type 0 where
  pub block : IsBlock h'
  pub bytes : All IsByte h'.bytes
  pub name_same : get name h' ≡ get name h
  pub magic_same : get magic h' ≡ get magic h
  pub version_same : get version h' ≡ get version h

pub IsFilled-by : {h h1 h2 : Header} → IsFilled h h1 → IsFilled h1 h2 → IsFilled h h2
IsFilled-by one two = record {
  block = two.block;
  bytes = two.bytes;
  name_same = two.name_same ∙ one.name_same;
  magic_same = two.magic_same ∙ one.magic_same;
  version_same = two.version_same ∙ one.version_same;
}

-- A field apart from the name and from what tells the format.
pub record IsFree (p : Part) : Type 0 where
  pub inside : Inside p
  pub some_byte : 0 < p.len
  pub from_name : Apart name p
  pub from_magic : Apart magic p
  pub from_version : Apart version p

module _ (p : Part) (free : IsFree p) (h : Header) (b : IsBlock h) (hb : All IsByte h.bytes) where
  update-IsFilled :
      (f : Bytes → Bytes) → KeepsLength f → All IsByte (f (get p h)) → IsFilled h (update p f h)
  update-IsFilled f keeps bytes = record {
    block = update-IsBlock p f h b;
    bytes = (unfold update put in splice-IsByte p.off (f (get p h)) h.bytes bytes hb);
    name_same = get-update-Apart p f h name b free.inside free.some_byte keeps free.from_name;
    magic_same = get-update-Apart p f h magic b free.inside free.some_byte keeps free.from_magic;
    version_same =
        get-update-Apart p f h version b free.inside free.some_byte keeps free.from_version;
  }

  field_bytes : All IsByte (get p h)
  field_bytes = unfold get slice in take-All IsByte p.len _ (drop-All IsByte p.off h.bytes hb)

  module _ (k n : ℕ) (wide : p.len ≡ suc k) (u : n < 2 ^ 64) where
    pub num_field-IsFilled : IsFilled h (update p (λ dst. num_field_wrapper_into dst n) h)
    num_field-IsFilled =
        update-IsFilled (λ dst. num_field_wrapper_into dst n) (num_field-KeepsLength n)
          (num_field_wrapper_into-IsByte (get p h) k n (length-get p h b free.inside ∙ wide) u
            field_bytes)

    pub octal-IsFilled : IsFilled h (update p (λ dst. octal_into dst n) h)
    octal-IsFilled =
        update-IsFilled (λ dst. octal_into dst n) (octal_into-KeepsLength n)
          (octal_into-IsByte (get p h) k n (length-get p h b free.inside ∙ wide) u)

pub set_entry_type-IsFilled :
    (t : EntryType) (h : Header)
    → as_byte t < 256
    → IsBlock h
    → All IsByte h.bytes
    → IsFilled h (set_entry_type t h)
unfolding set_entry_type
set_entry_type-IsFilled t h small b hb = record {
  block = put-IsBlock linkflag (as_byte t ∷ []) h b;
  bytes = (unfold put in splice-IsByte 156 (as_byte t ∷ []) h.bytes (small, tt) hb);
  name_same = get-put-Apart name linkflag (as_byte t ∷ []) h (inl (omega arith)) refl;
  magic_same = get-put-Apart magic linkflag (as_byte t ∷ []) h (inr (omega arith)) refl;
  version_same = get-put-Apart version linkflag (as_byte t ∷ []) h (inr (omega arith)) refl;
}

module _ {h h' : Header} (filled : IsFilled h h') where
  pub is_ustar-IsFilled : is_ustar h' ≡ is_ustar h
  unfolding is_ustar
  is_ustar-IsFilled = rw (filled.magic_same, filled.version_same) refl

  pub is_gnu-IsFilled : is_gnu h' ≡ is_gnu h
  unfolding is_gnu
  is_gnu-IsFilled = rw (filled.magic_same, filled.version_same) refl
