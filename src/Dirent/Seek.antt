-- ===== src/Dirent/Seek.antt =====
-- `_rewinddir_stub`, `_telldir_stub` and `_seekdir_stub` of winsup/dirent.c.
pub mod Laws
use magiskboot_build.Prelude.{ℕ, ℤ, pos, is_neg, is_zero, Bool, Option, none, some, if◌then◌else◌}
use magiskboot_build.Errno.{ebadf}
use magiskboot_build.Sys.{M}
use magiskboot_build.Win.Proc.{Proc, call, assert, fail_with, pure, ◌>>=◌, ◌>>◌}
use magiskboot_build.Dirent.{DirStub, DirApi, seek_set}

module _ {W : Type 0} (dir : DirApi W) where
  -- `if (!(dirp->fd < 0)) assert(!lseek(dirp->fd, loc, SEEK_SET))`
  unfoldable pub seek_fd : (ndebug : Bool) (fd loc : ℤ) → M (Proc W) (Unit {0})
  seek_fd ndebug fd loc =
      if is_neg fd
      then pure tt
      else assert ndebug (do moved ← call (dir.lseek fd loc seek_set); pure (is_zero moved))

  abbrev pub rewind_stream : Option ℕ → M (Proc W) (Unit {0})
  rewind_stream none = pure tt
  rewind_stream (some d) = call (dir.rewinddir d)

  unfoldable pub rewinddir_stub : (ndebug : Bool) → Option DirStub → M (Proc W) (Unit {0})
  rewinddir_stub ndebug none = pure tt
  rewinddir_stub ndebug (some stub) = do rewind_stream stub.dirp; seek_fd ndebug stub.fd (pos 0)

  unfoldable pub telldir_stub : Option DirStub → M (Proc W) ℤ
  telldir_stub none = fail_with ebadf
  telldir_stub (some stub) = elim stub.dirp [
    | none ↦ fail_with ebadf
    | some d ↦ call (dir.telldir d)
  ]

  abbrev pub seek_stream : Option ℕ → (loc : ℤ) → M (Proc W) (Unit {0})
  seek_stream none loc = pure tt
  seek_stream (some d) loc = call (dir.seekdir d loc)

  unfoldable pub seekdir_stub : (ndebug : Bool) → Option DirStub → (loc : ℤ) → M (Proc W) (Unit {0})
  seekdir_stub ndebug none loc = pure tt
  seekdir_stub ndebug (some stub) loc = do seek_stream stub.dirp loc; seek_fd ndebug stub.fd loc
