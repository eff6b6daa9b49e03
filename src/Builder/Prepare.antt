-- ===== src/Builder/Prepare.antt =====
-- src/builder.rs, `prepare_header`: the header of a GNU long name or long link.
use async_tar_rs.Base.{
  ℕ, ◌+◌, ◌^◌, ◌<◌, ◌≡◌, refl, sym, ap, ◌∙◌, true, inl, inr, [], ◌∷◌, Bytes, All, get_or, replicate,
  take, drop, if◌then◌else◌, arith,
}
use async_tar_rs.Base.Slots.{overlay, splice, slice}
use async_tar_rs.Base.Result.{ok, map_err, when, getting_size}
use async_tar_rs.Text.Numbers.{digits, format_radix}
use async_tar_rs.Codec.{octal_into, num_field_wrapper_into, num_field_wrapper_from}
use async_tar_rs.EntryType
use async_tar_rs.EntryType.{EntryType, new-as_byte, as_byte-new}
use async_tar_rs.Header.{
  Header, Part, part, new_gnu, get, put, update, set_mtime, set_mode, set_uid, set_gid, set_size,
  set_cksum, set_entry_type, calculate_cksum, entry_type, entry_size, is_gnu, as_gnu, size_field,
  cksum_field, linkflag, magic, version,
}
use async_tar_rs.Header.Laws.{
  IsBlock, Apart, put-IsBlock, update-IsBlock, get-put, get-put-Apart, get-update-Apart, get_twelve,
  octal_into-KeepsLength, num_field-KeepsLength,
}
use async_tar_rs.Header.ChecksumLaws.{IsByte, bytes_below-IsByte, cksum-set_cksum}
use async_tar_rs.Header.Sealed.{set_size-IsByte, splice-IsByte}
use async_tar_rs.Archive.Member.{IsReadable}
use async_tar_rs.Archive.Next.{Kind, kind, longname, longlink, local_pax, plain}
use async_tar_rs.Archive.Sealed.{set_cksum-some_byte, block_sum-calculate_cksum}

abbrev pub long_link : Bytes
long_link =
    b'.' ∷ b'/' ∷ b'.' ∷ b'/' ∷ b'@' ∷ b'L' ∷ b'o' ∷ b'n' ∷ b'g' ∷ b'L' ∷ b'i' ∷ b'n' ∷ b'k' ∷ []

-- The fields that do not depend on the member.
unfoldable pub long_link_header : Header
long_link_header =
    set_mtime 0 (set_gid 0 (set_uid 0 (set_mode 0o644 (put (part 0 13) long_link new_gnu))))

-- `size` is the length of a path, so that `size + 1` does not overflow.
unfoldable pub prepare_header : ℕ → ℕ → Header
prepare_header size byte =
    set_cksum (set_entry_type (EntryType.new byte) (set_size (size + 1) long_link_header))

long_link_header-IsBlock : IsBlock long_link_header
unfolding long_link_header set_mode set_uid set_gid new_gnu set_mtime update get put slice splice
    take drop replicate num_field_wrapper_into octal_into format_radix digits overlay
long_link_header-IsBlock = refl

long_link_header_bytes : All IsByte long_link_header.bytes
unfolding long_link_header set_mode set_uid set_gid new_gnu set_mtime update get put slice splice
    take drop replicate num_field_wrapper_into octal_into format_radix digits overlay
long_link_header_bytes = bytes_below-IsByte long_link_header.bytes refl

long_link_header_gnu : is_gnu long_link_header ≡ true
unfolding is_gnu long_link_header set_mode set_uid set_gid new_gnu set_mtime update get put slice
    splice take drop replicate num_field_wrapper_into octal_into format_radix digits overlay
long_link_header_gnu = refl

module _ (size byte : ℕ) (u : size + 1 < 2 ^ 64) (small : byte < 256) where
  abbrev sized : Header
  sized = set_size (size + 1) long_link_header

  abbrev typed : Header
  typed = set_entry_type (EntryType.new byte) sized

  sized-IsBlock : IsBlock sized
  unfolding set_size
  sized-IsBlock = update-IsBlock size_field _ long_link_header long_link_header-IsBlock

  typed-IsBlock : IsBlock typed
  unfolding set_entry_type
  typed-IsBlock = put-IsBlock linkflag _ sized sized-IsBlock

  typed_bytes : All IsByte typed.bytes
  unfolding set_entry_type put
  typed_bytes =
      splice-IsByte 156 (EntryType.as_byte (EntryType.new byte) ∷ []) sized.bytes
        (let back = as_byte-new byte in ground arith, tt)
        (set_size-IsByte long_link_header (size + 1) long_link_header-IsBlock u
          long_link_header_bytes)

  -- A field apart from the size, the type and the checksum is that of the fixed header.
  get-fixed :
      (q : Part)
      → Apart q cksum_field
      → Apart q linkflag
      → Apart q size_field
      → get q (set_cksum typed) ≡ get q long_link_header
  unfolding set_cksum set_entry_type set_size
  get-fixed q c l s =
      get-update-Apart cksum_field _ typed q typed-IsBlock (omega arith) (omega arith)
        (octal_into-KeepsLength (calculate_cksum typed)) c
      ∙ get-put-Apart q linkflag (EntryType.as_byte (EntryType.new byte) ∷ []) sized l refl
      ∙ get-update-Apart size_field _ long_link_header q long_link_header-IsBlock (omega arith)
          (omega arith) (num_field-KeepsLength (size + 1)) s

  prepared_gnu : is_gnu (prepare_header size byte) ≡ true
  unfolding is_gnu prepare_header
  prepared_gnu =
      rw
        (
          get-fixed magic (inr (omega arith)) (inr (omega arith)) (inr (omega arith)),
          get-fixed version (inr (omega arith)) (inr (omega arith)) (inr (omega arith)),
        )
        long_link_header_gnu

  entry_type-prepare_header : entry_type (prepare_header size byte) ≡ EntryType.new byte
  unfolding entry_type prepare_header set_cksum set_entry_type
  entry_type-prepare_header =
      ap (λ (t : Bytes). EntryType.new (get_or t 0 0))
        (get-update-Apart cksum_field _ typed linkflag typed-IsBlock (omega arith) (omega arith)
            (octal_into-KeepsLength (calculate_cksum typed)) (inr (omega arith))
          ∙ get-put linkflag (EntryType.as_byte (EntryType.new byte) ∷ []) sized sized-IsBlock
              (omega arith) refl)
      ∙ new-as_byte byte

  prepared_size : entry_size (set_cksum typed) ≡ ok (size + 1)
  unfolding entry_size set_cksum set_entry_type set_size
  prepared_size =
      ap (λ (t : Bytes). map_err (when getting_size) (num_field_wrapper_from t))
        (get-update-Apart cksum_field _ typed size_field typed-IsBlock (omega arith) (omega arith)
            (octal_into-KeepsLength (calculate_cksum typed)) (inl (omega arith))
          ∙ get-put-Apart size_field linkflag (EntryType.as_byte (EntryType.new byte) ∷ []) sized
              (inl (omega arith)) refl)
      ∙ ap (map_err (when getting_size)) (
          get_twelve size_field long_link_header (size + 1) long_link_header-IsBlock (omega arith) u
            refl)

  prepare_header-IsReadable : IsReadable (prepare_header size byte) (size + 1)
  unfolding prepare_header
  prepare_header-IsReadable = record {
    block = (unfold set_cksum in update-IsBlock cksum_field _ typed typed-IsBlock);
    some_byte = set_cksum-some_byte typed typed-IsBlock typed_bytes;
    checksum =
        cksum-set_cksum typed typed-IsBlock typed_bytes
        ∙ ap ok (sym (block_sum-calculate_cksum (set_cksum typed)));
    listed = prepared_size;
  }

-- The kind of a member in the GNU format.
abbrev kind_in_gnu : EntryType → Kind
kind_in_gnu t =
    if EntryType.is_gnu_longname t
    then longname
    else if EntryType.is_gnu_longlink t
    then longlink
    else if EntryType.is_pax_local_extensions t
    then local_pax
    else plain

kind_of :
    (size byte : ℕ) (u : size + 1 < 2 ^ 64) (small : byte < 256) (k : Kind)
    → kind_in_gnu (EntryType.new byte) ≡ k
    → kind (prepare_header size byte) ≡ k
unfolding kind as_gnu
kind_of size byte u small k e =
    rw (prepared_gnu size byte u small, entry_type-prepare_header size byte u small) e

-- The headers that `prepare_header` makes for a path of `size` bytes, `size + 1` below `2 ^ 64`,
-- are ones that the reader accepts, in front of `size + 1` bytes of data; with the type byte `L`
-- the reader takes the member for a GNU long name, with `K` for a GNU long link.
pub prepare_header-describes :
    (size : ℕ)
    → size + 1 < 2 ^ 64
    → (kind (prepare_header size b'L') ≡ longname)
      × (kind (prepare_header size b'K') ≡ longlink)
      × IsReadable (prepare_header size b'L') (size + 1)
      × IsReadable (prepare_header size b'K') (size + 1)
unfolding EntryType.new EntryType.is_gnu_longname EntryType.is_gnu_longlink
prepare_header-describes size u = (
  kind_of size b'L' u (omega arith) longname refl,
  kind_of size b'K' u (omega arith) longlink refl,
  prepare_header-IsReadable size b'L' u (omega arith),
  prepare_header-IsReadable size b'K' u (omega arith),
)
