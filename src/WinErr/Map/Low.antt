-- ===== src/WinErr/Map/Low.antt =====
-- The table of winsup/internal/winerr_map.h: the entries below 1350.
use magiskboot_build.Prelude.{[], ◌∷◌, ◌++◌}
use magiskboot_build.Errno.{
  eacces, eaddrinuse, eagain, ebadf, ebusy, echild, econnrefused, edeadlock, eexist, efault,
  ehostunreach, eintr, einval, eio, emfile, emlink, emsgsize, enametoolong, enfile, enodata, enodev,
  enoent, enoexec, enolck, enomem, enospc, enosys, enotdir, enotempty, enotsup, enxio, eperm, epipe,
  erofs, esrch, exdev, no_error,
}
use magiskboot_build.WinErr.Runs.{Runs}

abbrev pub winerr_runs_0 : Runs
winerr_runs_0 =
    (1, no_error)
    ∷ (1, einval)
    ∷ (2, enoent)
    ∷ (1, emfile)
    ∷ (1, eacces)
    ∷ (1, ebadf)
    ∷ (1, no_error)
    ∷ (1, enomem)
    ∷ (4, no_error)
    ∷ (1, einval)
    ∷ (1, enomem)
    ∷ (1, enodev)
    ∷ (1, no_error)
    ∷ (1, exdev)
    ∷ (1, enoent)
    ∷ (1, erofs)
    ∷ (1, enodev)
    ∷ (1, eio)
    ∷ (1, no_error)
    ∷ (1, eio)
    ∷ (1, no_error)
    ∷ (1, einval)
    ∷ (1, no_error)
    ∷ (1, einval)
    ∷ (4, no_error)
    ∷ (2, ebusy)
    ∷ (2, no_error)
    ∷ (1, enolck)
    ∷ (1, no_error)
    ∷ (1, enodata)
    ∷ (1, enospc)
    ∷ (10, no_error)
    ∷ (1, enosys)
    ∷ (1, ehostunreach)
    ∷ (1, eaddrinuse)
    ∷ (1, enoent)
    ∷ (1, no_error)
    ∷ (1, enoent)
    ∷ (2, no_error)
    ∷ (1, enosys)
    ∷ (1, eio)
    ∷ (4, no_error)
    ∷ (1, enoent)
    ∷ (2, no_error)
    ∷ (1, enoent)
    ∷ (12, no_error)
    ∷ (1, eexist)
    ∷ (1, no_error)
    ∷ (1, eperm)
    ∷ (4, no_error)
    ∷ (1, einval)
    ∷ (1, no_error)
    ∷ (1, eagain)
    ∷ (14, no_error)
    ∷ (1, eintr)
    ∷ (4, no_error)
    ∷ (1, epipe)
    ∷ (1, eio)
    ∷ (1, no_error)
    ∷ (1, enospc)
    ∷ (1, enfile)
    ∷ (6, no_error)
    ∷ (1, enosys)
    ∷ (2, no_error)
    ∷ (1, enoent)
    ∷ (2, no_error)
    ∷ (1, enoent)
    ∷ (1, esrch)
    ∷ (1, echild)
    ∷ (1, ebusy)
    ∷ (1, no_error)
    ∷ (1, einval)
    ∷ (13, no_error)
    ∷ (1, enotempty)
    ∷ (4, no_error)
    ∷ []

abbrev pub winerr_runs_150 : Runs
winerr_runs_150 =
    (6, no_error)
    ∷ (1, eio)
    ∷ (4, no_error)
    ∷ (1, enoent)
    ∷ (1, ebusy)
    ∷ (1, no_error)
    ∷ (1, eagain)
    ∷ (5, no_error)
    ∷ (1, ebusy)
    ∷ (12, no_error)
    ∷ (1, eexist)
    ∷ (7, no_error)
    ∷ (3, enoexec)
    ∷ (3, no_error)
    ∷ (1, enoexec)
    ∷ (7, no_error)
    ∷ (1, eio)
    ∷ (1, enametoolong)
    ∷ (1, no_error)
    ∷ (3, einval)
    ∷ (5, no_error)
    ∷ (1, enoexec)
    ∷ (13, no_error)
    ∷ (1, einval)
    ∷ (1, ebusy)
    ∷ (2, epipe)
    ∷ (1, emsgsize)
    ∷ (19, no_error)
    ∷ (2, einval)
    ∷ (3, no_error)
    ∷ (1, enoent)
    ∷ (7, no_error)
    ∷ (1, enotdir)
    ∷ (7, no_error)
    ∷ (1, enospc)
    ∷ (1, no_error)
    ∷ (1, enospc)
    ∷ (4, no_error)
    ∷ (1, enotsup)
    ∷ (5, no_error)
    ∷ (1, eperm)
    ∷ (11, no_error)
    ∷ []

abbrev pub winerr_runs_300 : Runs
winerr_runs_300 = (124, no_error) ∷ (1, einval) ∷ (25, no_error) ∷ []

abbrev pub winerr_runs_450 : Runs
winerr_runs_450 =
    (37, no_error) ∷ (1, einval) ∷ (47, no_error) ∷ (1, ebusy) ∷ (1, epipe) ∷ (63, no_error) ∷ []

abbrev pub winerr_runs_600 : Runs
winerr_runs_600 = (150, no_error) ∷ []

abbrev pub winerr_runs_750 : Runs
winerr_runs_750 = (150, no_error) ∷ []

abbrev pub winerr_runs_900 : Runs
winerr_runs_900 =
    (96, no_error)
    ∷ (2, eagain)
    ∷ (1, efault)
    ∷ (7, no_error)
    ∷ (1, enxio)
    ∷ (1, no_error)
    ∷ (1, einval)
    ∷ (41, no_error)
    ∷ []

abbrev pub winerr_runs_1050 : Runs
winerr_runs_1050 =
    (3, no_error)
    ∷ (1, ebusy)
    ∷ (13, no_error)
    ∷ (1, efault)
    ∷ (32, no_error)
    ∷ (1, enospc)
    ∷ (4, eio)
    ∷ (1, no_error)
    ∷ (1, eio)
    ∷ (4, no_error)
    ∷ (2, eio)
    ∷ (4, no_error)
    ∷ (1, eio)
    ∷ (11, no_error)
    ∷ (1, eio)
    ∷ (1, no_error)
    ∷ (1, edeadlock)
    ∷ (10, no_error)
    ∷ (1, emlink)
    ∷ (22, no_error)
    ∷ (2, eio)
    ∷ (33, no_error)
    ∷ []

abbrev pub winerr_runs_1200 : Runs
winerr_runs_1200 =
    (1, enodev)
    ∷ (22, no_error)
    ∷ (1, eintr)
    ∷ (1, no_error)
    ∷ (1, econnrefused)
    ∷ (88, no_error)
    ∷ (1, eperm)
    ∷ (17, no_error)
    ∷ (1, einval)
    ∷ (17, no_error)
    ∷ []

abbrev pub low_runs : Runs
low_runs =
    winerr_runs_0 ++ winerr_runs_150 ++ winerr_runs_300 ++ winerr_runs_450 ++ winerr_runs_600
    ++ winerr_runs_750 ++ winerr_runs_900 ++ winerr_runs_1050 ++ winerr_runs_1200
