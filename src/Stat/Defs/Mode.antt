-- ===== src/Stat/Defs/Mode.antt =====
-- The mode that `__wrap__fstat64` of winsup/stat.c gives.
use magiskboot_build.Prelude.{
  ℕ, ◌==◌, Bool, true, false, not, ◌&&◌, ◌||◌, Option, none, some, bit_and, bit_or, ◌≡◌, refl,
  if◌then◌else◌,
}
use magiskboot_build.Win.Api.{Str, FileInfo}
use magiskboot_build.Win.Flags.{
  has, s_ifmt, s_ififo, s_ifchr, s_ifdir, s_iflnk, s_ifreg, s_iread_all, s_iwrite_all, s_iexec_all,
  file_attribute_readonly, file_attribute_directory, file_attribute_reparse_point,
}
use magiskboot_build.Stat.Exec.{is_program}
use magiskboot_build.Stat.Defs.{file_type_char, file_type_pipe, on_disk, disk_mode, file_mode}

-- A mode has the bits of a type, and all the bits of each permission that it has or none of them.
unfoldable pub IsMode : (mode type : ℕ) (reads writes executes : Bool) → Type 0
IsMode mode type reads writes executes =
    (bit_and mode s_ifmt ≡ type)
    × (bit_and mode s_iread_all ≡ (if reads then s_iread_all else 0))
    × (bit_and mode s_iwrite_all ≡ (if writes then s_iwrite_all else 0))
    × (bit_and mode s_iexec_all ≡ (if executes then s_iexec_all else 0))

abbrev pub reparse : FileInfo → Bool
reparse hfi = has hfi.attributes file_attribute_reparse_point

abbrev pub directory : FileInfo → Bool
directory hfi = has hfi.attributes file_attribute_directory

abbrev pub read_only : FileInfo → Bool
read_only hfi = has hfi.attributes file_attribute_readonly

abbrev pub program : Option Str → Bool
program none = false
program (some path) = is_program path

abbrev char_device : ℕ → Bool
char_device type = type == file_type_char

abbrev pipe : ℕ → Bool
pipe type = type == file_type_pipe

abbrev pub type_bits : (type : ℕ) → FileInfo → ℕ
type_bits type hfi =
    if char_device type
    then s_ifchr
    else if pipe type
    then s_ififo
    else if reparse hfi
    then s_iflnk
    else if directory hfi
    then s_ifdir
    else s_ifreg

-- The test for the execute bits, of a file on disk.
abbrev pub executable : (type : ℕ) → FileInfo → Option Str → Bool
executable type hfi path = on_disk type && (not (reparse hfi) && (directory hfi || program path))

-- The bits for each answer to the tests.
abbrev bits : (chr fifo link dir prog ro : Bool) → ℕ
bits chr fifo link dir prog ro =
    bit_or
      (if chr
        then s_ifchr
        else if fifo
        then s_ififo
        else bit_or s_iread_all (
            if link
            then s_iflnk
            else if dir
            then bit_or s_ifdir s_iexec_all
            else bit_or s_ifreg (if prog then s_iexec_all else 0)))
      (if ro then 0 else s_iwrite_all)

abbrev Expected : (chr fifo link dir prog ro : Bool) → Type 0
Expected chr fifo link dir prog ro =
    IsMode (bits chr fifo link dir prog ro)
      (if chr
        then s_ifchr
        else if fifo
        then s_ififo
        else if link
        then s_iflnk
        else if dir
        then s_ifdir
        else s_ifreg)
      (if chr then false else if fifo then false else true) (not ro)
      ((if chr then false else if fifo then false else true) && (not link && (dir || prog)))

all_answers : (chr fifo link dir prog ro : Bool) → Expected chr fifo link dir prog ro
unfolding IsMode
all_answers true fifo link dir prog true = (refl, refl, refl, refl)
all_answers true fifo link dir prog false = (refl, refl, refl, refl)
all_answers false true link dir prog true = (refl, refl, refl, refl)
all_answers false true link dir prog false = (refl, refl, refl, refl)
all_answers false false true dir prog true = (refl, refl, refl, refl)
all_answers false false true dir prog false = (refl, refl, refl, refl)
all_answers false false false true prog true = (refl, refl, refl, refl)
all_answers false false false true prog false = (refl, refl, refl, refl)
all_answers false false false false true true = (refl, refl, refl, refl)
all_answers false false false false true false = (refl, refl, refl, refl)
all_answers false false false false false true = (refl, refl, refl, refl)
all_answers false false false false false false = (refl, refl, refl, refl)

-- For every type of file, every attributes and every path: the mode that `fstat` gives has the type
-- bits of a character device, a pipe, a link, a directory or a regular file, by the type, the
-- reparse attribute and the directory attribute in this order; it is readable when the file is on
-- disk, writable when it is not marked read-only, and executable when it is on disk, no link, and a
-- directory or a name of a program; and each permission is for the user, the group and others alike.
pub file_mode-IsMode :
    (type : ℕ) (hfi : FileInfo) (path : Option Str)
    → IsMode
        (file_mode type hfi path)
        (type_bits type hfi)
        (on_disk type)
        (not (read_only hfi))
        (executable type hfi path)
unfolding file_mode disk_mode
file_mode-IsMode type hfi none =
    all_answers (char_device type) (pipe type) (reparse hfi) (directory hfi) false (read_only hfi)
file_mode-IsMode type hfi (some path) =
    all_answers (char_device type) (pipe type) (reparse hfi) (directory hfi) (is_program path)
      (read_only hfi)
