-- ===== src/Dirent/Read.antt =====
-- `_readdir_stub` of winsup/dirent.c.
pub mod Laws
pub mod Types
use magiskboot_build.Prelude.{
  ℕ, ◌%◌, ◌^◌, min, ◌==◌, ℤ, pos, is_neg, is_zero, Bool, true, false, Option, none, some, bit_and,
  if◌then◌else◌,
}
use magiskboot_build.Errno.{ebadf}
use magiskboot_build.Sys.{M}
use magiskboot_build.Win.Api.{Api, Str}
use magiskboot_build.Win.Flags.{
  s_isdir, s_ifmt, s_ififo, s_ifchr, s_ifblk, s_iflnk, s_ifsock, s_ifreg,
}
use magiskboot_build.Win.Proc.{Proc, call, assert, set_errno, pure, aborts, ◌>>=◌, ◌>>◌}
use magiskboot_build.Strlcpy.{strlcpy}
use magiskboot_build.At.Defs.{at_symlink_nofollow, fstatat}
use magiskboot_build.Dirent.{Entry, DirentStub, DirStub, DirApi, seek_cur}

-- `DT_UNKNOWN`, `DT_REG`, `DT_LNK`, `DT_DIR`, `DT_FIFO`, `DT_SOCK`, `DT_BLK`, `DT_CHR`
abbrev pub dt_unknown : ℕ
dt_unknown = 0

abbrev pub dt_reg : ℕ
dt_reg = 1

abbrev pub dt_lnk : ℕ
dt_lnk = 2

abbrev pub dt_dir : ℕ
dt_dir = 3

abbrev pub dt_fifo : ℕ
dt_fifo = 4

abbrev pub dt_sock : ℕ
dt_sock = 5

abbrev pub dt_blk : ℕ
dt_blk = 6

abbrev pub dt_chr : ℕ
dt_chr = 7

-- The type of the entry, by the file's mode.
unfoldable pub type_of_mode : (st_mode : ℕ) → ℕ
type_of_mode st_mode =
    let kind = bit_and st_mode s_ifmt in
    if kind == s_ifreg
    then dt_reg
    else if kind == s_iflnk
    then dt_lnk
    else if s_isdir st_mode
    then dt_dir
    else if kind == s_ififo
    then dt_fifo
    else if kind == s_ifsock
    then dt_sock
    else if kind == s_ifblk
    then dt_blk
    else if kind == s_ifchr
    then dt_chr
    else dt_unknown

-- `sizeof(res.d_name)`
abbrev pub name_size : ℕ
name_size = 260

-- The entry as a copy in `res`, whose former name is `old`.
unfoldable pub clone : (d : Entry) (st_mode : ℕ) (old : DirentStub) → DirentStub
unfolding type_of_mode
clone d st_mode old =
    let copied = strlcpy old.d_name d.d_name (min name_size d.d_namlen) in
    record {
      d_ino = d.d_ino;
      d_type = type_of_mode st_mode;
      d_reclen = d.d_reclen;
      d_namlen = copied.1 % 2 ^ 16;
      d_name = copied.0;
    }

module _ {W : Type 0} (api : Api W) (dir : DirApi W) (ndebug : Bool) where
  -- `st_mode` after the asserted `fstatat`. With `NDEBUG` nothing is stored there, and `uninit` is
  -- what the variable holds.
  unfoldable pub entry_mode : ℤ → Str → (uninit : ℕ) → M (Proc W) ℕ
  entry_mode fd name uninit = if ndebug then pure uninit else (do
    buf ← fstatat api ndebug fd name at_symlink_nofollow
    elim buf [ none ↦ aborts | some st ↦ pure st.st_mode ])

  -- From `readdir` to the end.
  unfoldable pub read_stream :
      (d : ℕ) (fd : ℤ) (uninit : ℕ) (res : DirentStub) → M (Proc W) (Option DirentStub)
  read_stream d fd uninit res = do
    entry ← call (dir.readdir d)
    elim entry [
      | none ↦ pure none
      | some e ↦ (do
        st_mode ← entry_mode fd e.d_name uninit
        assert ndebug (do moved ← call (dir.lseek fd (pos 1) seek_cur); pure (is_zero moved))
        pure (some (clone e st_mode res)))
    ]

  -- `res` is the static variable before the call; a result that is a structure is its new value.
  unfoldable pub readdir_stub :
      Option DirStub → (uninit : ℕ) (res : DirentStub) → M (Proc W) (Option DirentStub)
  readdir_stub none uninit res = set_errno ebadf >> pure none
  readdir_stub (some stub) uninit res = elim stub.dirp [
    | none ↦ set_errno ebadf >> pure none
    | some d ↦
        if is_neg stub.fd then set_errno ebadf >> pure none else read_stream d stub.fd uninit res
  ]
