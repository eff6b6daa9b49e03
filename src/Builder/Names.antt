-- ===== src/Builder/Names.antt =====
-- src/builder.rs: members whose path and link name are put into the header, or in front of it.
use async_tar_rs.Base.{
  ℕ, Option, none, some, [], ◌∷◌, ◌++◌, Bytes, length, take, ltb, if◌then◌else◌,
}
use async_tar_rs.Base.Result.{Result, ok, err, other, socket_not_archived, unknown_file_type}
use async_tar_rs.Poll.{Outcome, M, ◌>>=◌, ◌>>◌, return, fail, from, read, modify, attempt}
use async_tar_rs.Text.Utf8.{valid_up_to}
use async_tar_rs.EntryType.{EntryType, char, block, fifo}
use async_tar_rs.Header.{
  Header, new_gnu, set_cksum, set_entry_type, set_path, set_link_name, set_device_major,
  set_device_minor,
}
use async_tar_rs.Header.Metadata.{
  HeaderMode, Metadata, set_metadata_in_mode, is_socket, is_fifo, is_char_device, is_block_device,
}
use async_tar_rs.Builder.Append.{AsyncWrite, Source, Builder, append}
use async_tar_rs.Builder.Prepare.{prepare_header}
use Prim.Native.Nat.{bit_and, bit_or, ◌/◌, ◌%◌, ◌^◌}

-- The writer and the header that is being made ready.
pub record Draft (W : Type 0) : Type 0 where
  pub dst : W
  pub header : Header

abbrev pub nothing : Source
nothing = record { content = []; failure = none }

abbrev pub with_nul : Bytes → Source
with_nul bytes = record { content = bytes ++ 0 ∷ []; failure = none }

-- The front of a path that is stored where the path is too long: 100 bytes at most, and no part of
-- a character.
unfoldable pub truncated : Bytes → Bytes
truncated path = take (valid_up_to (take 100 path)) path

module _ {W : Type 0} (io : AsyncWrite W) where
  abbrev pub on_dst : {A : Type 0} → M W A → M (Draft W) A
  on_dst m d = (record d { dst = (m d.dst).0 }, (m d.dst).1)

  abbrev pub on_header : {A : Type 0} → M Header A → M (Draft W) A
  on_header m d = (record d { header = (m d.header).0 }, (m d.header).1)

  unfoldable pub prepare_header_path : Bytes → M (Draft W) (Unit {0})
  unfolding truncated
  prepare_header_path path = do
    tried ← attempt (on_header (set_path path))
    elim tried [
      | ok done ↦ return tt
      | err e ↦ if ltb (length path) 100 then fail e else do
        on_dst (append io (prepare_header (length path) b'L') (with_nul path))
        on_header (set_path (truncated path))
    ]

  unfoldable pub prepare_header_link : Bytes → M (Draft W) (Unit {0})
  prepare_header_link link_name = do
    tried ← attempt (on_header (set_link_name link_name))
    elim tried [
      | ok done ↦ return tt
      | err e ↦
          if ltb (length link_name) 100
          then fail e
          else on_dst (append io (prepare_header (length link_name) b'K') (with_nul link_name))
    ]

  -- `header.set_cksum()` and `append(dst, header, data)`.
  unfoldable pub complete_with : Source → M (Draft W) (Unit {0})
  complete_with src = do
    modify (λ d. record d { header = set_cksum d.header })
    header ← read (λ d. d.header)
    on_dst (append io header src)

  -- `Builder::append_data`
  unfoldable pub append_data : Bytes → Source → M (Draft W) (Unit {0})
  unfolding prepare_header_path complete_with
  append_data path src = do prepare_header_path path; complete_with src

  -- `Builder::_append_link`
  unfoldable pub append_link : Bytes → Bytes → M (Draft W) (Unit {0})
  unfolding prepare_header_path prepare_header_link complete_with
  append_link path target = do
    prepare_header_path path
    prepare_header_link target
    complete_with nothing

  -- What a method of the builder makes of it: the writer is the builder's, the header the caller's.
  unfoldable pub on_builder : Header → M (Draft W) (Unit {0}) → M (Builder W) (Unit {0})
  on_builder header m b =
      let start : Draft W = record { dst = b.obj; header = header } in
      (record b { obj = (m start).0.dst }, (m start).1)

  abbrev link_if : Option Bytes → M (Draft W) (Unit {0})
  link_if none = return tt
  link_if (some link_name) = prepare_header_link link_name

  -- `append_fs`, on its own header.
  unfoldable pub append_fs :
      Bytes → Metadata → Source → HeaderMode → Option Bytes → M (Draft W) (Unit {0})
  unfolding prepare_header_path complete_with
  append_fs path meta src mode link_name = do
    modify (λ d. record d { header = new_gnu })
    prepare_header_path path
    modify (λ d. record d { header = set_metadata_in_mode mode meta d.header })
    link_if link_name
    complete_with src

  -- The type of a special file, or the error for what cannot be archived.
  unfoldable pub special_type : Metadata → Result EntryType
  special_type stat =
      if is_socket stat
      then err (other socket_not_archived)
      else if is_fifo stat
      then ok fifo
      else if is_char_device stat
      then ok char
      else if is_block_device stat
      then ok block
      else err (other unknown_file_type)

  unfoldable pub device_major_of : ℕ → ℕ
  device_major_of dev =
      bit_or (bit_and (dev / 2 ^ 32) 0xffff_f000) (bit_and (dev / 2 ^ 8) 0x0000_0fff) % 2 ^ 32

  unfoldable pub device_minor_of : ℕ → ℕ
  device_minor_of dev =
      bit_or (bit_and (dev / 2 ^ 12) 0xffff_ff00) (bit_and dev 0x0000_00ff) % 2 ^ 32

  abbrev pub on_result : (Header → Result Header) → M (Draft W) (Unit {0})
  on_result f d = elim (f d.header) [
    | ok h ↦ (record d { header = h }, Outcome.ready (ok tt))
    | err e ↦ (d, Outcome.ready (err e))
  ]

  unfoldable pub append_special : Bytes → Metadata → HeaderMode → M (Draft W) (Unit {0})
  unfolding special_type prepare_header_path device_major_of device_minor_of
  append_special path stat mode = do
    entry_type ← from (special_type stat)
    modify (λ d. record d { header = set_metadata_in_mode mode stat new_gnu })
    prepare_header_path path
    modify (λ d. record d { header = set_entry_type entry_type d.header })
    on_result (set_device_major (device_major_of stat.rdev))
    on_result (set_device_minor (device_minor_of stat.rdev))
    modify (λ d. record d { header = set_cksum d.header })
    header ← read (λ d. d.header)
    on_dst (λ w. io.write_all w header.bytes)
