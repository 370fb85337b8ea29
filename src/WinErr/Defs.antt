-- ===== src/WinErr/Defs.antt =====
-- `__set_errno_via_winerr` of winsup/internal/errno.c.
use magiskboot_build.Prelude.{ℕ, ltb, ◌==◌, get_or, length, if◌then◌else◌}
use magiskboot_build.Errno.{Errno, no_error, unknown, is_no_error}
use magiskboot_build.Sys.{Sys}
use magiskboot_build.WinErr.Map.{winerr_map}

-- `__winerr_map_size`
unfoldable pub winerr_map_size : ℕ
unfolding winerr_map
winerr_map_size = length winerr_map

-- `__winerr_map[winerr]`
unfoldable pub winerr_entry : ℕ → Errno
unfolding winerr_map
winerr_entry winerr = get_or winerr_map winerr no_error

abbrev pub set_errno : {W : Type 0} → Errno → Sys W → Sys W
set_errno e s = record s { errno = e }

unfoldable pub set_errno_via_winerr : {W : Type 0} → ℕ → Sys W → Sys W
set_errno_via_winerr winerr s =
    if winerr == 0
    then set_errno no_error s
    else if ltb winerr winerr_map_size
    then (let mapped_err = winerr_entry winerr in
        if is_no_error mapped_err then set_errno unknown s else set_errno mapped_err s)
    else set_errno unknown s
