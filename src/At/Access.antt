-- ===== src/At/Access.antt =====
-- The permissions that `faccessat` of winsup/at.c finds in a mode that `fstat` of winsup/stat.c gave.
use magiskboot_build.Prelude.{
  ℕ, ◌==◌, Bool, true, false, not, ◌||◌, Option, ◌≡◌, refl, if◌then◌else◌,
}
use magiskboot_build.Win.Api.{Api, Str, FileInfo}
use magiskboot_build.Win.Flags.{s_iread_all, s_iwrite_all, s_iexec_all}
use magiskboot_build.Stat.Defs.{file_mode, on_disk}
use magiskboot_build.Stat.Defs.Mode.{IsMode, type_bits, read_only, executable, file_mode-IsMode}
use magiskboot_build.Win.Flags.{r_ok, w_ok, x_ok}
use magiskboot_build.At.Defs.{denied}

module _ {W : Type 0} (api : Api W) (ndebug : Bool) where
  denied-IsMode :
      (mode type : ℕ) (reads writes executes : Bool)
      → IsMode mode type reads writes executes
      → (denied api ndebug r_ok mode ≡ not reads)
        × (denied api ndebug w_ok mode ≡ not writes)
        × (denied api ndebug x_ok mode ≡ not executes)
  unfolding denied IsMode
  denied-IsMode mode type reads writes executes (t, r, w, x) =
      (rw r (by_bit reads).0, rw w (by_bit writes).1, rw x (by_bit executes).2)
    where
      by_bit :
          (b : Bool)
          → ((not (not ((if b then s_iread_all else 0) == 0)) || false || false) ≡ not b)
            × ((not (not ((if b then s_iwrite_all else 0) == 0)) || false) ≡ not b)
            × (not (not ((if b then s_iexec_all else 0) == 0)) ≡ not b)
      by_bit true = (refl, refl, refl)
      by_bit false = (refl, refl, refl)

  -- In the mode that `fstat` gives for any type, attributes and path, the test of `faccessat` denies
  -- reading exactly to a file that is not on disk, writing exactly to one that is marked read-only,
  -- and execution exactly to one that is neither a directory nor named as a program, or is a link, or
  -- is not on disk.
  pub denied-file_mode :
      (type : ℕ) (hfi : FileInfo) (path : Option Str)
      → (denied api ndebug r_ok (file_mode type hfi path) ≡ not (on_disk type))
        × (denied api ndebug w_ok (file_mode type hfi path) ≡ not (not (read_only hfi)))
        × (denied api ndebug x_ok (file_mode type hfi path) ≡ not (executable type hfi path))
  denied-file_mode type hfi path =
      denied-IsMode (file_mode type hfi path) (type_bits type hfi) (on_disk type)
        (not (read_only hfi)) (executable type hfi path) (file_mode-IsMode type hfi path)
