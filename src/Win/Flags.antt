-- ===== src/Win/Flags.antt =====
-- The constants of errno.h's neighbours (fcntl.h, sys/stat.h, unistd.h) and of windows.h that
-- winsup/ names, and the tests of mode bits.
use magiskboot_build.Prelude.{ℕ, ◌==◌, Bool, not, bit_and}

-- `flags & mask`
abbrev pub has : ℕ → ℕ → Bool
has flags mask = not (bit_and flags mask == 0)

abbrev pub o_rdonly : ℕ
o_rdonly = 0

abbrev pub o_wronly : ℕ
o_wronly = 1

abbrev pub o_rdwr : ℕ
o_rdwr = 2

abbrev pub o_accmode : ℕ
o_accmode = 3

abbrev pub o_append : ℕ
o_append = 8

abbrev pub o_noinherit : ℕ
o_noinherit = 0x80

abbrev pub o_creat : ℕ
o_creat = 0x100

abbrev pub o_trunc : ℕ
o_trunc = 0x200

abbrev pub o_excl : ℕ
o_excl = 0x400

abbrev pub o_binary : ℕ
o_binary = 0x8000

abbrev pub s_ifmt : ℕ
s_ifmt = 0xf000

abbrev pub s_ififo : ℕ
s_ififo = 0x1000

abbrev pub s_ifchr : ℕ
s_ifchr = 0x2000

abbrev pub s_ifdir : ℕ
s_ifdir = 0x4000

-- `S_IFLNK` of include/winsup/stat_compat.h.
abbrev pub s_iflnk : ℕ
s_iflnk = 0x6000

abbrev pub s_ifblk : ℕ
s_ifblk = 0x3000

-- `S_IFSOCK` of include/winsup/stat_compat.h.
abbrev pub s_ifsock : ℕ
s_ifsock = 0xc000

abbrev pub s_ifreg : ℕ
s_ifreg = 0x8000

-- Read, write and execute, each for the user, the group and others.
abbrev pub s_iread_all : ℕ
s_iread_all = 0x124

abbrev pub s_iwrite_all : ℕ
s_iwrite_all = 0x92

abbrev pub s_iexec_all : ℕ
s_iexec_all = 0x49

-- The modes of `access`.
abbrev pub f_ok : ℕ
f_ok = 0

abbrev pub r_ok : ℕ
r_ok = 4

abbrev pub w_ok : ℕ
w_ok = 2

abbrev pub x_ok : ℕ
x_ok = 1

unfoldable pub s_isdir : ℕ → Bool
s_isdir mode = bit_and mode s_ifmt == s_ifdir

abbrev pub path_max : ℕ
path_max = 260

abbrev pub generic_read : ℕ
generic_read = 0x80000000

abbrev pub file_share_valid_flags : ℕ
file_share_valid_flags = 7

abbrev pub file_flag_open_reparse_point : ℕ
file_flag_open_reparse_point = 0x200000

abbrev pub file_flag_backup_semantics : ℕ
file_flag_backup_semantics = 0x2000000

abbrev pub file_attribute_readonly : ℕ
file_attribute_readonly = 1

abbrev pub file_attribute_directory : ℕ
file_attribute_directory = 0x10

abbrev pub file_attribute_reparse_point : ℕ
file_attribute_reparse_point = 0x400

abbrev pub error_invalid_handle : ℕ
error_invalid_handle = 6

abbrev pub error_invalid_parameter : ℕ
error_invalid_parameter = 87
