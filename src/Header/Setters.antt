-- ===== src/Header/Setters.antt =====
-- What the numeric setters of src/header.rs leave behind for their getters.
use async_tar_rs.Base.{ℕ, ◌%◌, ◌^◌, ◌<◌, ◌≡◌, refl, ap, ◌∙◌, arith}
use async_tar_rs.Base.Result.{
  ok, map_ok, map_err, when, getting_mode, getting_uid, getting_gid, getting_mtime, getting_atime,
  getting_ctime,
}
use async_tar_rs.Header.{
  Header, mode, set_mode, uid, set_uid, gid, set_gid, mtime, set_mtime, atime, set_atime, ctime,
  set_ctime, uid_field, gid_field, mode_field, mtime_field, atime_field, ctime_field,
}
use async_tar_rs.Header.Laws.{IsBlock, get_twelve, get_eight, get_octal}

module _ (h : Header) (n : ℕ) (b : IsBlock h) (u : n < 2 ^ 64) where
  mode-set_mode : mode (set_mode n h) ≡ ok (n % 8 ^ 7)
  unfolding mode set_mode
  mode-set_mode =
      ap (λ r. map_err (when getting_mode) (map_ok (λ (k : ℕ). k % 2 ^ 32) r))
        (get_octal mode_field h n b (omega arith) u refl)
      ∙ ap (λ (k : ℕ). ok k) (omega arith)

  uid-set_uid : uid (set_uid n h) ≡ ok (n % 2 ^ 63)
  unfolding uid set_uid
  uid-set_uid = ap (map_err (when getting_uid)) (get_eight uid_field h n b (omega arith) u refl)

  gid-set_gid : gid (set_gid n h) ≡ ok (n % 2 ^ 63)
  unfolding gid set_gid
  gid-set_gid = ap (map_err (when getting_gid)) (get_eight gid_field h n b (omega arith) u refl)

  mtime-set_mtime : mtime (set_mtime n h) ≡ ok n
  unfolding mtime set_mtime
  mtime-set_mtime =
      ap (map_err (when getting_mtime)) (get_twelve mtime_field h n b (omega arith) u refl)

  atime-set_atime : atime (set_atime n h) ≡ ok n
  unfolding atime set_atime
  atime-set_atime =
      ap (map_err (when getting_atime)) (get_twelve atime_field h n b (omega arith) u refl)

  ctime-set_ctime : ctime (set_ctime n h) ≡ ok n
  unfolding ctime set_ctime
  ctime-set_ctime =
      ap (map_err (when getting_ctime)) (get_twelve ctime_field h n b (omega arith) u refl)

  -- On a header of 512 bytes and for a value below `2 ^ 64`, the three times read back as they
  -- were set, the owner's two numbers modulo `2 ^ 63`, and the mode modulo `8 ^ 7`.
  pub numeric-setters :
      (mtime (set_mtime n h) ≡ ok n)
      × (atime (set_atime n h) ≡ ok n)
      × (ctime (set_ctime n h) ≡ ok n)
      × (uid (set_uid n h) ≡ ok (n % 2 ^ 63))
      × (gid (set_gid n h) ≡ ok (n % 2 ^ 63))
      × (mode (set_mode n h) ≡ ok (n % 8 ^ 7))
  numeric-setters =
      (mtime-set_mtime, atime-set_atime, ctime-set_ctime, uid-set_uid, gid-set_gid, mode-set_mode)
