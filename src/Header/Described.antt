-- ===== src/Header/Described.antt =====
-- src/header.rs, `set_metadata_in_mode` on a GNU header, completed by `set_cksum`.
use async_tar_rs.Base.{
  ℕ, ◌^◌, ◌<◌, ◌≡◌, refl, sym, ap, ◌∙◌, ◌||◌, Bool, inl, inr, true, false, [], ◌∷◌, Bytes, All,
  get_or, if◌then◌else◌, arith,
}
use async_tar_rs.Base.Result.{ok, map_err, when, getting_size}
use async_tar_rs.Codec.{octal_into, num_field_wrapper_from, truncate}
use async_tar_rs.EntryType
use async_tar_rs.EntryType.{as_byte}
use async_tar_rs.Header.Layout.{
  Header, Part, get, update, size_field, linkflag, dev_major, dev_minor, cksum_field, is_ustar,
  is_gnu, as_ustar, as_gnu,
}
use async_tar_rs.Header.Fields.{set_size, set_entry_type, entry_type, entry_size}
use async_tar_rs.Header.Checksum.{set_cksum, calculate_cksum}
use async_tar_rs.Header.Metadata.{
  HeaderMode, Metadata, is_dir, is_symlink, entry_type_of, fill_mode, fill_platform_from,
  clear_devices, fill_from, set_metadata_in_mode,
}
use async_tar_rs.Header.Laws.{
  IsBlock, Apart, get-update-Apart, get-put, get_twelve, octal_into-KeepsLength,
  num_field-KeepsLength, update-IsBlock,
}
use async_tar_rs.Header.ChecksumLaws.{IsByte, calculate_cksum-lt}
use async_tar_rs.Header.SetPath.{header_path_bytes-name}
use async_tar_rs.Header.Filled.{
  IsFilled, IsFilled-by, num_field-IsFilled, octal-IsFilled, set_entry_type-IsFilled,
  is_ustar-IsFilled, is_gnu-IsFilled,
}
use async_tar_rs.Header.MetadataLaws.{
  IsStat, front-IsFree, fill_mode-IsFilled, entry_type_of_byte, new-entry_type_of,
  clear_devices-IsFilled,
}
use async_tar_rs.Entry.Fields.{header_path_bytes}

-- The size that is stored: none for a directory or a link.
abbrev pub stored_size : Metadata → ℕ
stored_size m = if is_dir m || is_symlink m then 0 else m.len

clear-Apart :
    (q : Part) (h : Header)
    → IsBlock h
    → Apart q dev_major
    → Apart q dev_minor
    → get q (clear_devices h) ≡ get q h
unfolding clear_devices
clear-Apart q h b major minor =
    get-update-Apart dev_minor (λ dst. octal_into dst 0)
      (update dev_major (λ dst. octal_into dst 0) h) q
      (update-IsBlock dev_major (λ dst. octal_into dst 0) h b) (omega arith) (omega arith)
      (octal_into-KeepsLength 0) minor
    ∙ get-update-Apart dev_major (λ dst. octal_into dst 0) h q b (omega arith) (omega arith)
        (octal_into-KeepsLength 0) major

module _ (mode : HeaderMode) (m : Metadata) (h : Header) (s : IsStat m) (b : IsBlock h)
    (hb : All IsByte h.bytes) where
  abbrev numbered : Header
  numbered = fill_mode mode m h

  abbrev typed : Header
  typed = set_entry_type (entry_type_of m) numbered

  abbrev sized : Header
  sized = set_size (stored_size m) typed

  typed-IsFilled : IsFilled h typed
  typed-IsFilled =
      let one = fill_mode-IsFilled mode m h s b hb in
      IsFilled-by one (
        set_entry_type-IsFilled (entry_type_of m) numbered (entry_type_of_byte m) one.block
          one.bytes)

  size_small : (dirs : Bool) → (if dirs then 0 else m.len) < 2 ^ 64
  size_small true = omega arith
  size_small false = s.len_small

  sized-IsFilled : IsFilled h sized
  unfolding set_size
  sized-IsFilled =
      let one = typed-IsFilled in
      IsFilled-by one (
        num_field-IsFilled size_field
          (front-IsFree 124 12 (omega arith) (omega arith) (omega arith)) typed one.block one.bytes
          11 (stored_size m) refl (size_small (is_dir m || is_symlink m)))

  fill_from_gnu : is_ustar h ≡ false → is_gnu h ≡ true → fill_from mode m h ≡ clear_devices sized
  unfolding fill_from fill_platform_from as_ustar as_gnu
  fill_from_gnu not_ustar gnu =
      let u = is_ustar-IsFilled sized-IsFilled ∙ not_ustar in
      let g = is_gnu-IsFilled sized-IsFilled ∙ gnu in ground (arith, u, g)

  cleared-IsFilled : IsFilled h (clear_devices sized)
  cleared-IsFilled =
      let one = sized-IsFilled in IsFilled-by one (clear_devices-IsFilled sized one.block one.bytes)

  entry_size-cleared : entry_size (clear_devices sized) ≡ ok (stored_size m)
  unfolding entry_size set_size
  entry_size-cleared =
      ap (λ (t : Bytes). map_err (when getting_size) (num_field_wrapper_from t))
        (clear-Apart size_field sized sized-IsFilled.block (inl (omega arith)) (inl (omega arith)))
      ∙ ap (map_err (when getting_size)) (
          get_twelve size_field typed (stored_size m) typed-IsFilled.block (omega arith)
            (size_small (is_dir m || is_symlink m)) refl)

  entry_type-cleared : entry_type (clear_devices sized) ≡ entry_type_of m
  unfolding entry_type set_size set_entry_type
  entry_type-cleared =
      ap (λ (t : Bytes). EntryType.new (get_or t 0 0))
        (clear-Apart linkflag sized sized-IsFilled.block (inl (omega arith)) (inl (omega arith))
          ∙ get-update-Apart size_field _ typed linkflag typed-IsFilled.block (omega arith)
              (omega arith) (num_field-KeepsLength (stored_size m)) (inr (omega arith))
          ∙ get-put linkflag (as_byte (entry_type_of m) ∷ []) numbered
              (fill_mode-IsFilled mode m h s b hb).block (omega arith) refl)
      ∙ new-entry_type_of m

  pub set_metadata-IsFilled :
      is_ustar h ≡ false
      → is_gnu h ≡ true
      → IsFilled h (set_metadata_in_mode mode m h)
        × (entry_size (set_metadata_in_mode mode m h) ≡ ok (stored_size m))
        × (entry_type (set_metadata_in_mode mode m h) ≡ entry_type_of m)
  unfolding set_metadata_in_mode
  set_metadata-IsFilled not_ustar gnu =
      rw (fill_from_gnu not_ustar gnu) (cleared-IsFilled, entry_size-cleared, entry_type-cleared)

-- The path in a header of another format than UStar that `set_cksum` completes.
pub header_path_bytes-IsFilled :
    {h h' : Header}
    → is_ustar h ≡ false
    → IsFilled h h'
    → header_path_bytes h' ≡ header_path_bytes h
header_path_bytes-IsFilled {h} {h'} not_ustar f =
    header_path_bytes-name h' (inl (is_ustar-IsFilled f ∙ not_ustar))
    ∙ ap truncate f.name_same
    ∙ sym (header_path_bytes-name h (inl not_ustar))

pub set_cksum-IsFilled : (h : Header) → IsBlock h → All IsByte h.bytes → IsFilled h (set_cksum h)
unfolding set_cksum
set_cksum-IsFilled h b hb =
    octal-IsFilled cksum_field (front-IsFree 148 8 (omega arith) (omega arith) (omega arith)) h b hb
      7 (calculate_cksum h) refl (omega (arith, calculate_cksum-lt h b hb))
