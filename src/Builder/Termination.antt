-- ===== src/Builder/Termination.antt =====
-- src/builder.rs: the builder comes to an end, and `append_dir_all` does on a finite tree.
use async_tar_rs.Base.{
  ◌≢◌, Option, none, some, Bytes, length, replicate, ltb, arith, ◌-◌, ◌%◌, if◌then◌else◌,
}
use async_tar_rs.Base.Result.{Result, ok, err, Error}
use async_tar_rs.Poll.{ready, out_of_fuel, M, return, fail, ◌>>◌}
use async_tar_rs.Poll.Ends.{Ends, ends_ready, ends_if, ends_bind, ends_then, ends_attempt}
use async_tar_rs.Header.{
  Header, new_gnu, set_path, set_cksum, set_entry_type, set_device_major, set_device_minor,
}
use async_tar_rs.Header.Metadata.{HeaderMode, Metadata, set_metadata_in_mode}
use async_tar_rs.Header.PathOutcomes.{set_path_ends, set_link_name_ends}
use async_tar_rs.Builder.Append.{AsyncWrite, Source, copy, append}
use async_tar_rs.Builder.Prepare.{prepare_header}
use async_tar_rs.Builder.Names.{
  Draft, with_nul, truncated, on_dst, on_header, prepare_header_path, prepare_header_link,
  complete_with, append_fs, on_result, append_special, special_type, device_major_of,
  device_minor_of,
}

module _ {W : Type 0} (io : AsyncWrite W)
    (written : (w : W) (b : Bytes) → (io.write_all w b).1 ≢ out_of_fuel) where
  write_ends : (b : Bytes) → Ends (λ w. io.write_all w b)
  write_ends b = record { ends = λ w. written w b }

  copy_ends : (src : Source) → Ends (copy io src)
  unfolding copy
  copy_ends src = ends_then (write_ends src.content) (ended src.failure)
    where
      ended :
          (f : Option Error)
          → Ends {S = W} (elim f [ none ↦ return (length src.content) | some e ↦ fail e ])
      ended none = ends_ready (λ w. w) (λ w. ok (length src.content))
      ended (some e) = ends_ready (λ w. w) (λ w. err e)

  done : {S : Type 0} → Ends {S = S} (λ s. (s, ready (ok tt)))
  done = ends_ready (λ s. s) (λ s. ok tt)

  append_ends : (header : Header) (src : Source) → Ends (append io header src)
  unfolding append
  append_ends header src = ends_then (write_ends header.bytes) (
      ends_bind (copy_ends src) (λ len.
        ends_if (ltb (512 - len % 512) 512) (write_ends (replicate (512 - len % 512) 0)) done))

  on_dst_ends : {A : Type 0} {m : M W A} → Ends m → Ends (on_dst io m)
  on_dst_ends hm = record { ends = λ d. hm.ends d.dst }

  on_header_ends : {A : Type 0} {m : M Header A} → Ends m → Ends (on_header io m)
  on_header_ends hm = record { ends = λ d. hm.ends d.header }

  prepare_header_path_ends : (path : Bytes) → Ends (prepare_header_path io path)
  unfolding prepare_header_path
  prepare_header_path_ends path =
      ends_bind (ends_attempt (on_header_ends (set_path_ends path))) tried
    where
      tried :
          (r : Result (Unit {0}))
          → Ends {S = Draft W} (elim r [
            | ok done' ↦ return tt
            | err e ↦ if ltb (length path) 100 then fail e else do
              on_dst io (append io (prepare_header (length path) b'L') (with_nul path))
              on_header io (set_path (truncated path))
          ])
      tried (ok u) = done
      tried (err e) = ends_if (ltb (length path) 100) (ends_ready (λ d. d) (λ d. err e)) (
          ends_then (on_dst_ends (append_ends (prepare_header (length path) b'L') (with_nul path)))
            (on_header_ends (set_path_ends (truncated path))))

  prepare_header_link_ends : (link_name : Bytes) → Ends (prepare_header_link io link_name)
  unfolding prepare_header_link
  prepare_header_link_ends link_name =
      ends_bind (ends_attempt (on_header_ends (set_link_name_ends link_name))) tried
    where
      tried :
          (r : Result (Unit {0}))
          → Ends {S = Draft W} (elim r [
            | ok done' ↦ return tt
            | err e ↦
                if ltb (length link_name) 100
                then fail e
                else on_dst io
                    (append io (prepare_header (length link_name) b'K') (with_nul link_name))
          ])
      tried (ok u) = done
      tried (err e) =
          ends_if (ltb (length link_name) 100) (ends_ready (λ d. d) (λ d. err e)) (
            on_dst_ends (append_ends (prepare_header (length link_name) b'K') (with_nul link_name)))

  -- A change of the header.
  change : (f : Draft W → Draft W) → Ends {S = Draft W} (λ d. (f d, ready (ok tt)))
  change f = ends_ready f (λ d. ok tt)

  header_read : Ends {S = Draft W} (λ d. (d, ready (ok d.header)))
  header_read = ends_ready (λ d. d) (λ d. ok d.header)

  complete_with_ends : (src : Source) → Ends (complete_with io src)
  unfolding complete_with
  complete_with_ends src =
      ends_then (change (λ d. record d { header = set_cksum d.header }))
        (ends_bind header_read (λ header. on_dst_ends (append_ends header src)))

  pub append_fs_ends :
      (path : Bytes) (meta : Metadata) (src : Source) (mode : HeaderMode) (link_name : Option Bytes)
      → Ends (append_fs io path meta src mode link_name)
  unfolding append_fs
  append_fs_ends path meta src mode none = ends_then (change (λ d. record d { header = new_gnu })) (
      ends_then (prepare_header_path_ends path) (
        ends_then (change (λ d. record d { header = set_metadata_in_mode mode meta d.header }))
          (ends_then done (complete_with_ends src))))
  append_fs_ends path meta src mode (some link_name) =
      ends_then (change (λ d. record d { header = new_gnu })) (
        ends_then (prepare_header_path_ends path) (
          ends_then (change (λ d. record d { header = set_metadata_in_mode mode meta d.header }))
            (ends_then (prepare_header_link_ends link_name) (complete_with_ends src))))

  on_result_ends : (f : Header → Result Header) → Ends (on_result io f)
  on_result_ends f = record { ends = λ d e. ground arith }

  pub append_special_ends :
      (path : Bytes) (stat : Metadata) (mode : HeaderMode) → Ends (append_special io path stat mode)
  unfolding append_special
  append_special_ends path stat mode =
      ends_bind (ends_ready (λ d. d) (λ d. special_type io stat)) (λ t.
        ends_then (change (λ d. record d { header = set_metadata_in_mode mode stat new_gnu })) (
          ends_then (prepare_header_path_ends path) (
            ends_then (change (λ d. record d { header = set_entry_type t d.header })) (
              ends_then (on_result_ends (set_device_major (device_major_of io stat.rdev))) (
                ends_then (on_result_ends (set_device_minor (device_minor_of io stat.rdev))) (
                  ends_then (change (λ d. record d { header = set_cksum d.header }))
                    (ends_bind header_read (λ header. on_dst_ends (write_ends header.bytes)))))))))
