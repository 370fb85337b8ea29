-- ===== src/Open.antt =====
-- winsup/open.c: `open` for files and directories.
pub mod Wide
pub mod Laws
mod Tests
use magiskboot_build.Prelude.{ℕ, ℤ, minus_one, is_neg, ◌==◌, bit_and, bit_or, if◌then◌else◌}
use magiskboot_build.Errno.{eisdir, einval}
use magiskboot_build.Sys.{M}
use magiskboot_build.Win.Api.{Api, Str}
use magiskboot_build.Win.Flags.{
  has, s_isdir, o_creat, o_binary, o_accmode, o_rdonly, o_wronly, o_rdwr, generic_read,
  file_share_valid_flags,
}
use magiskboot_build.Win.Proc.{Proc, call, fail_with, errno_from_last, pure, ◌>>=◌, ◌>>◌}
use magiskboot_build.Fd.Open.{open_dir_fd}
use magiskboot_build.Fd.Cache.{fd_cache_oflag}

module _ {W : Type 0} (api : Api W) where
  -- The `switch` on the access mode of a directory.
  unfoldable pub open_directory : Str → (oflag : ℕ) → M (Proc W) ℤ
  open_directory path oflag =
      let accmode = bit_and oflag o_accmode in
      if accmode == o_rdonly
      then (do
        fd ← open_dir_fd api path generic_read file_share_valid_flags oflag
        if is_neg fd then errno_from_last >> pure minus_one else pure fd)
      else if accmode == o_wronly
      then fail_with eisdir
      else if accmode == o_rdwr
      then fail_with eisdir
      else fail_with einval

  -- `mode` is the variable argument; without `O_CREAT` the C runtime ignores it.
  unfoldable pub open_impl : Str → (oflag mode : ℕ) → M (Proc W) ℤ
  open_impl path oflag' mode =
      let oflag = bit_or oflag' o_binary in
      if has oflag o_creat then call (api.real_open path oflag mode) else do
        (r, buf) ← call (api.stat path)
        if is_neg r
            then call (api.real_open path oflag 0)
            else if s_isdir buf.st_mode
            then open_directory path oflag
            else call (api.real_open path oflag 0)

  -- `__wrap_open`, which every call of `open` goes to.
  unfoldable pub wrap_open : Str → (oflag mode : ℕ) → M (Proc W) ℤ
  wrap_open path oflag mode = do
    fd ← open_impl path oflag mode
    if is_neg fd then pure fd else fd_cache_oflag fd oflag >> pure fd
