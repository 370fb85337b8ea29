-- ===== src/WinErr/Map.antt =====
-- The table of winsup/internal/winerr_map.h, which gives the `errno` of a Win32 error. It has 9000
-- entries, most of them 0. Each definition of the modules below is one stretch of 150 entries, from
-- the one in its name on.
mod Low
mod Middle
mod High
use magiskboot_build.Prelude.{List, ◌++◌}
use magiskboot_build.Errno.{Errno}
use magiskboot_build.WinErr.Runs.{entries}
use magiskboot_build.WinErr.Map.Low.{low_runs}
use magiskboot_build.WinErr.Map.Middle.{middle_runs}
use magiskboot_build.WinErr.Map.High.{high_runs}

unfoldable pub winerr_map : List Errno
winerr_map = entries (low_runs ++ (middle_runs ++ high_runs))
