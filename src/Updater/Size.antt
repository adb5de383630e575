-- ===== src/Updater/Size.antt =====
-- Documents that are too large (`checkSize` of internal/cataloger/updater.go).
use paperminer.Base.{◌≡◌, ◌↔◌, ◌≤ℤ◌, true, arith}
use paperminer.Io.{ok}
use paperminer.Updater.{Updater, check_size}

module _ {W File : Type 0} (u : Updater W File) where
  -- The size check passes exactly if the original file is not above the limit, nor the archived file
  -- if there is one.
  pub check_size-eq_ok_iff : (check_size u ≡ ok tt) ↔ (
      (u.metadata.original_size ≤ℤ u.file_size_max)
      × (u.metadata.has_archive_version ≡ true → u.metadata.archive_size ≤ℤ u.file_size_max))
  unfolding check_size
  check_size-eq_ok_iff = ground arith
