-- ===== src/WinErr/Tests.antt =====
-- winsup/internal/errno.c at single errors.
use magiskboot_build.Prelude.{ℕ, zero, ◌==◌, ltb, true, false, ◌≡◌, refl, if◌then◌else◌}
use magiskboot_build.Errno.{enoent, eio, is_no_error}
use magiskboot_build.Sys.{Sys}
use magiskboot_build.WinErr.Defs.{winerr_entry, set_errno_via_winerr}
use magiskboot_build.WinErr.Laws.{is_unknown, set_errno_via_winerr_lem}

-- ERROR_FILE_NOT_FOUND, and the last mapped entry.
file_not_found : winerr_entry 2 ≡ enoent
unfolding winerr_entry
file_not_found = refl

last_entry : winerr_entry 8341 ≡ eio
unfolding winerr_entry
last_entry = refl

abbrev sys : Sys ℕ
sys = record { errno = eio; last_error = 2; world = 0 }

set_errno_via_winerr_lem_example :
    let t = set_errno_via_winerr 2 sys in
    (is_no_error t.errno ≡ (2 == zero))
    × (is_unknown t.errno
        ≡ (if 2 == zero then false else if ltb 2 9000 then is_no_error (winerr_entry 2) else true))
    × (is_no_error t.errno ≡ false → is_unknown t.errno ≡ false → t.errno ≡ winerr_entry 2)
    × (t.last_error ≡ 2)
    × (t.world ≡ 0)
set_errno_via_winerr_lem_example = set_errno_via_winerr_lem 2 sys
