-- ===== src/Link/Make.antt =====
-- `link` and `symlink` of winsup/link.c.
use magiskboot_build.Prelude.{ℕ, ◌+◌, ℤ, pos, minus_one, is_neg, Bool, if◌then◌else◌}
use magiskboot_build.Errno.{eperm}
use magiskboot_build.Sys.{M}
use magiskboot_build.Win.Api.{Api, Str}
use magiskboot_build.Win.Flags.{s_isdir}
use magiskboot_build.Win.Proc.{Proc, call, fail_with, errno_from_last, pure, ◌>>=◌, ◌>>◌}

abbrev pub symbolic_link_flag_directory : ℕ
symbolic_link_flag_directory = 1

abbrev pub symbolic_link_flag_allow_unprivileged_create : ℕ
symbolic_link_flag_allow_unprivileged_create = 2

module _ {W : Type 0} (api : Api W) where
  -- -1 with `errno` from the last Win32 error, or 0.
  abbrev pub report : Bool → M (Proc W) ℤ
  report done = if done then pure (pos 0) else errno_from_last >> pure minus_one

  unfoldable pub link : (path1 path2 : Str) → M (Proc W) ℤ
  link path1 path2 = do
    (r, buf) ← call (api.stat path1)
    if is_neg r
        then pure minus_one
        else if s_isdir buf.st_mode
        then fail_with eperm
        else (do done ← call (api.create_hard_link path2 path1); report done)

  unfoldable pub symlink : (name1 name2 : Str) → M (Proc W) ℤ
  symlink name1 name2 = do
    (r, buf) ← call (api.stat name1)
    let directory = if is_neg r then Bool.false else s_isdir buf.st_mode
    let flags =
        if directory
        then symbolic_link_flag_allow_unprivileged_create + symbolic_link_flag_directory
        else symbolic_link_flag_allow_unprivileged_create
    done ← call (api.create_symbolic_link name2 name1 flags)
    report done
