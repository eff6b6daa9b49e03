-- ===== src/Header/MetadataLaws.antt =====
-- src/header.rs, `set_metadata_in_mode`: what the header of a file tells the reader.
use async_tar_rs.Base.{ℕ, ◌+◌, ◌^◌, ◌≤◌, ◌<◌, ◌≡◌, refl, ◌||◌, inl, inr, All, if◌then◌else◌, arith}
use async_tar_rs.Codec.{octal_into}
use async_tar_rs.EntryType
use async_tar_rs.EntryType.{EntryType, as_byte}
use async_tar_rs.Header.Layout.{Header, part, update, dev_major, dev_minor, set_mtime}
use async_tar_rs.Header.Fields.{set_mode, set_uid, set_gid}
use async_tar_rs.Header.Metadata.{
  HeaderMode, complete, deterministic, Metadata, is_dir, is_executable, entry_type_of, fill_mode,
  clear_devices,
}
use async_tar_rs.Header.Laws.{IsBlock}
use async_tar_rs.Header.ChecksumLaws.{IsByte}
use async_tar_rs.Header.Filled.{IsFilled, IsFilled-by, IsFree, num_field-IsFilled, octal-IsFilled}

-- Fields in front of the magic, and behind the version.
pub front-IsFree : (off len : ℕ) → 100 ≤ off → off + len ≤ 257 → 0 < len → IsFree (part off len)
front-IsFree off len h1 h2 h3 = record {
  inside = omega (arith, h2);
  some_byte = h3;
  from_name = inl (omega (arith, h1));
  from_magic = inr (omega (arith, h2));
  from_version = inr (omega (arith, h2));
}

back-IsFree : (off len : ℕ) → 265 ≤ off → off + len ≤ 512 → 0 < len → IsFree (part off len)
back-IsFree off len h1 h2 h3 = record {
  inside = h2;
  some_byte = h3;
  from_name = inl (omega (arith, h1));
  from_magic = inl (omega (arith, h1));
  from_version = inl (omega (arith, h1));
}

-- The numbers of a file as the system gives them, in 64 bits at most.
pub record IsStat (m : Metadata) : Type 0 where
  pub mtime_small : m.mtime < 2 ^ 64
  pub uid_small : m.uid < 2 ^ 64
  pub gid_small : m.gid < 2 ^ 64
  pub mode_small : m.mode < 2 ^ 64
  pub len_small : m.len < 2 ^ 64

-- The four numbers that both modes set.
fill_numbers :
    (t u g p : ℕ) (h : Header)
    → IsBlock h
    → All IsByte h.bytes
    → t < 2 ^ 64
    → u < 2 ^ 64
    → g < 2 ^ 64
    → p < 2 ^ 64
    → IsFilled h (set_mode p (set_gid g (set_uid u (set_mtime t h))))
unfolding set_mode set_gid set_uid set_mtime
fill_numbers t u g p h b hb ht hu hg hp =
    let one =
      num_field-IsFilled (part 136 12)
        (front-IsFree 136 12 (omega arith) (omega arith) (omega arith)) h b hb 11 t refl ht in
    let two =
      num_field-IsFilled (part 108 8) (front-IsFree 108 8 (omega arith) (omega arith) (omega arith))
        (set_mtime t h) one.block one.bytes 7 u refl hu in
    let three =
      num_field-IsFilled (part 116 8) (front-IsFree 116 8 (omega arith) (omega arith) (omega arith))
        (set_uid u (set_mtime t h)) two.block two.bytes 7 g refl hg in
    let four =
      octal-IsFilled (part 100 8) (front-IsFree 100 8 (omega arith) (omega arith) (omega arith))
        (set_gid g (set_uid u (set_mtime t h))) three.block three.bytes 7 p refl hp in
    IsFilled-by one (IsFilled-by two (IsFilled-by three four))

pub fill_mode-IsFilled :
    (mode : HeaderMode) (m : Metadata) (h : Header)
    → IsStat m
    → IsBlock h
    → All IsByte h.bytes
    → IsFilled h (fill_mode mode m h)
unfolding fill_mode
fill_mode-IsFilled complete m h s b hb =
    fill_numbers m.mtime m.uid m.gid m.mode h b hb s.mtime_small s.uid_small s.gid_small
      s.mode_small
fill_mode-IsFilled deterministic m h s b hb =
    fill_numbers 1153704088 0 0 (if is_dir m || is_executable m then 0o755 else 0o644) h b hb
      (omega arith) (omega arith) (omega arith) (ground arith)

pub entry_type_of_byte : (m : Metadata) → as_byte (entry_type_of m) < 256
unfolding entry_type_of as_byte EntryType.new
entry_type_of_byte m = ground arith

pub new-entry_type_of : (m : Metadata) → EntryType.new (as_byte (entry_type_of m)) ≡ entry_type_of m
unfolding entry_type_of as_byte EntryType.new
new-entry_type_of m = ground arith

pub clear_devices-IsFilled :
    (h : Header) → IsBlock h → All IsByte h.bytes → IsFilled h (clear_devices h)
unfolding clear_devices
clear_devices-IsFilled h b hb =
    let one =
      octal-IsFilled dev_major (back-IsFree 329 8 (omega arith) (omega arith) (omega arith)) h b hb
        7 0 refl (omega arith) in
    IsFilled-by one (
      octal-IsFilled dev_minor (back-IsFree 337 8 (omega arith) (omega arith) (omega arith))
        (update dev_major (λ dst. octal_into dst 0) h) one.block one.bytes 7 0 refl (omega arith))
