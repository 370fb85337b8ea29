-- ===== src/Stat/Defs.antt =====
-- `__wrap__fstat64`, `__wrap_fstat` and `lstat` of winsup/stat.c.
pub mod Laws
pub mod Mode
mod Tests
use magiskboot_build.Prelude.{
  ℕ, ◌+◌, ◌-◌, ◌*◌, ◌^◌, ltb, ℤ, pos, is_neg, ◌==◌, Bool, Option, none, some, bit_or, if◌then◌else◌,
}
use magiskboot_build.Errno.{enoent}
use magiskboot_build.Sys.{M, ok}
use magiskboot_build.Win.Api.{Api, Str, Stat, FileInfo}
use magiskboot_build.Win.Flags.{
  has, s_ififo, s_ifchr, s_ifdir, s_iflnk, s_ifreg, s_iread_all, s_iwrite_all, s_iexec_all,
  path_max, generic_read, file_share_valid_flags, file_attribute_readonly, file_attribute_directory,
  file_attribute_reparse_point,
}
use magiskboot_build.Win.Proc.{
  Proc, call, set_errno, errno_from_last, free, pure, gets, ◌>>=◌, ◌>>◌,
}
use magiskboot_build.Fd.Open.{fd_get_path, open_symlink_fd}
use magiskboot_build.Link.Read.{readlink}
use magiskboot_build.Stat.Exec.{is_program}

-- The results of `GetFileType`; every other one is a file on disk.
abbrev pub file_type_unknown : ℕ
file_type_unknown = 0

abbrev pub file_type_char : ℕ
file_type_char = 2

abbrev pub file_type_pipe : ℕ
file_type_pipe = 3

-- The bits of `st_mode` for a file on disk.
unfoldable pub disk_mode : FileInfo → Option Str → ℕ
disk_mode hfi path = bit_or s_iread_all (
    if has hfi.attributes file_attribute_reparse_point
    then s_iflnk
    else if has hfi.attributes file_attribute_directory
    then bit_or s_ifdir s_iexec_all
    else bit_or s_ifreg (elim path [ none ↦ 0 | some p ↦ if is_program p then s_iexec_all else 0 ]))

-- The bits for each type of file, and the write bits unless the file is read-only.
unfoldable pub file_mode : (type : ℕ) → FileInfo → Option Str → ℕ
unfolding disk_mode
file_mode type hfi path =
    bit_or
      (if type == file_type_char
        then s_ifchr
        else if type == file_type_pipe
        then s_ififo
        else disk_mode hfi path)
      (if has hfi.attributes file_attribute_readonly then 0 else s_iwrite_all)

abbrev pub on_disk : ℕ → Bool
on_disk type =
    if type == file_type_char
    then Bool.false
    else if type == file_type_pipe
    then Bool.false
    else Bool.true

-- The structure, but for `st_size`.
unfoldable pub describe :
    (seconds : ℕ → ℕ) (fd : ℤ) (type : ℕ) → FileInfo → Option Str → (size : ℕ) → Stat
unfolding file_mode
describe seconds fd type hfi path size = record {
  st_mode = file_mode type hfi path;
  st_dev = if on_disk type then pos 0 else fd;
  st_rdev = if on_disk type then pos 0 else fd;
  st_nlink = if on_disk type then hfi.links else 1;
  st_size = size;
  st_atime = seconds hfi.last_access;
  st_mtime = seconds hfi.last_write;
  st_ctime = seconds hfi.last_write;
}

module _ {W : Type 0} (api : Api W) (ndebug : Bool) where
  -- `if (path) free(path)`
  abbrev pub free_path : Option Str → M (Proc W) (Unit {0})
  free_path none = pure tt
  free_path (some p) = free

  -- `st_size`: the length of a link's target if that can be read, and 0 if not.
  unfoldable pub link_size : Option Str → M (Proc W) ℕ
  link_size none = pure 0
  link_size (some p) = do
    target ← readlink api ndebug p path_max
    elim target [ none ↦ pure 0 | some (n, _) ↦ pure n ]

  unfoldable pub file_size : FileInfo → Option Str → M (Proc W) ℕ
  file_size hfi path =
      if has hfi.attributes file_attribute_reparse_point
      then link_size path
      else pure (hfi.size_high * 2 ^ 32 + hfi.size_low)

  -- `GetFileType` gave `FILE_TYPE_UNKNOWN`.
  unfoldable pub unknown_type : M (Proc W) (Unit {0})
  unknown_type = do
    winerr ← gets (λ p. p.sys.last_error)
    if winerr == 0 then set_errno enoent else errno_from_last

  -- From `GetFileType` to the end.
  unfoldable pub fill_stat : (fd : ℤ) (h : ℕ) → FileInfo → Option Str → M (Proc W) (Option Stat)
  fill_stat fd h hfi path = do
    type ← call (api.get_file_type h)
    if type == file_type_unknown then (do unknown_type; free_path path; pure none) else (do
      size ← file_size hfi path
      free_path path
      pure (some (describe api.seconds_since_1970 fd type hfi path size)))

  -- `none` is the result -1.
  unfoldable pub fstat : ℤ → M (Proc W) (Option Stat)
  fstat fd = do
    handle ← call (api.get_osfhandle fd)
    elim handle [
      | none ↦ pure none
      | some h ↦ (do
        info ← call (api.get_file_information h)
        elim info [
          | none ↦ errno_from_last >> pure none
          | some hfi ↦ (do path ← fd_get_path api fd; fill_stat fd h hfi path)
        ])
    ]

  unfoldable pub lstat : Str → M (Proc W) (Option Stat)
  lstat path = do
    fd ← open_symlink_fd api path generic_read file_share_valid_flags 0
    if is_neg fd
        then errno_from_last >> pure none
        else (do r ← fstat fd; call (api.close fd); pure r)
