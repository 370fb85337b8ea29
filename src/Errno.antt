-- ===== src/Errno.antt =====
-- The values of `errno` that the sources name (errno.h), with `no_error` for 0 and `unknown` for
-- the -1 that winsup/internal/errno.c stores. `other` is any further code of the C runtime.
use magiskboot_build.Prelude.{ℕ, Bool, true, false}

pub data Errno : Type 0 where
  no_error unknown : Errno
  eperm enoent esrch eintr eio enxio enoexec ebadf echild eagain enomem eacces efault ebusy : Errno
  eexist exdev enodev enotdir eisdir einval enfile emfile efbig enospc erofs emlink epipe : Errno
  edeadlock enametoolong enolck enosys enotempty eaddrinuse econnrefused ehostunreach : Errno
  emsgsize enodata enolink enotsup : Errno
  other : ℕ → Errno

abbrev pub is_eintr : Errno → Bool
is_eintr Errno.eintr = true
is_eintr _ = false

-- `!err` on an entry of the error table
abbrev pub is_no_error : Errno → Bool
is_no_error Errno.no_error = true
is_no_error _ = false
