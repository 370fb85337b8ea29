-- ===== src/Dirent/Open.antt =====
-- `_opendir_stub`, `fdopendir`, `_closedir_stub` and `dirfd` of winsup/dirent.c.
pub mod Laws
use magiskboot_build.Prelude.{ℕ, ℤ, pos, minus_one, is_neg, Bool, Option, none, some, if◌then◌else◌}
use magiskboot_build.Errno.{ebadf, einval}
use magiskboot_build.Sys.{M}
use magiskboot_build.Win.Api.{Api, Str}
use magiskboot_build.Win.Proc.{
  Proc, call, fail_with, errno_from_last, malloc, free, pure, ◌>>=◌, ◌>>◌,
}
use magiskboot_build.Fd.Open.{fd_get_path}
use magiskboot_build.Open.{wrap_open}
use magiskboot_build.At.Path.{is_dirfd}
use magiskboot_build.Dirent.{DirStub, DirApi}

-- `O_PATH`, which the runtime does not have.
abbrev pub o_path : ℕ
o_path = 0

module _ {W : Type 0} (api : Api W) (dir : DirApi W) where
  -- From `malloc` to the end.
  unfoldable pub open_stream : Str → (fd : ℤ) → M (Proc W) (Option DirStub)
  open_stream path fd = do
    got ← malloc api
    if got
        then (do
          real_dirp ← call (dir.opendir path)
          elim real_dirp [
            | none ↦ call (api.close fd) >> (free >> pure none)
            | some d ↦ pure (some (record { dirp = some d; fd = fd }))
          ])
        else call (api.close fd) >> pure none

  -- The third argument of `open` is not given.
  unfoldable pub opendir_stub : Str → M (Proc W) (Option DirStub)
  opendir_stub path = do
    fd ← wrap_open api path o_path 0
    if is_neg fd then pure none else open_stream path fd

  -- From the second `malloc` to the end, with the path in the first block.
  unfoldable pub stream_of : Str → (fd : ℤ) → M (Proc W) (Option DirStub)
  stream_of path fd = do
    got ← malloc api
    if got
        then (do
          real_dirp ← call (dir.opendir path)
          elim real_dirp [
            | none ↦ free >> (free >> pure none)
            | some d ↦ free >> pure (some (record { dirp = some d; fd = fd }))
          ])
        else free >> pure none

  unfoldable pub fdopendir : (ndebug : Bool) → ℤ → M (Proc W) (Option DirStub)
  fdopendir ndebug fd = do
    is_dir ← is_dirfd api ndebug fd
    if is_dir
        then (do
          path ← fd_get_path api fd
          elim path [ none ↦ errno_from_last >> pure none | some p ↦ stream_of p fd ])
        else pure none

  -- `if (dirp->dirp) closedir(dirp->dirp)`
  abbrev pub close_stream : Option ℕ → M (Proc W) (Unit {0})
  close_stream none = pure tt
  close_stream (some d) = call (dir.closedir d) >> pure tt

  unfoldable pub closedir_stub : Option DirStub → M (Proc W) ℤ
  closedir_stub none = fail_with ebadf
  closedir_stub (some stub) = do
    close_stream stub.dirp
    if is_neg stub.fd then pure tt else call (api.close stub.fd) >> pure tt
    free
    pure (pos 0)

unfoldable pub dirfd : {W : Type 0} → Option DirStub → M (Proc W) ℤ
dirfd none = fail_with einval
dirfd (some stub) = pure stub.fd
