-- ===== src/Win/Api.antt =====
-- The functions of the C runtime and of Win32 that winsup/ calls, as parameters. A handle is a
-- number, and `none` stands for `INVALID_HANDLE_VALUE`, a null pointer or `FALSE`. A path or a name
-- is the list of its bytes.
use magiskboot_build.Prelude.{ℕ, ℤ, Bool, Option, List}
use magiskboot_build.Sys.{Ext}

abbrev pub Str : Type 0
Str = List ℕ

-- `struct stat`
pub record Stat : Type 0 where
  pub st_mode : ℕ
  pub st_dev : ℤ
  pub st_rdev : ℤ
  pub st_nlink : ℕ
  pub st_size : ℕ
  pub st_atime : ℕ
  pub st_mtime : ℕ
  pub st_ctime : ℕ

-- `BY_HANDLE_FILE_INFORMATION`
pub record FileInfo : Type 0 where
  pub attributes : ℕ
  pub links : ℕ
  pub size_high : ℕ
  pub size_low : ℕ
  pub last_access : ℕ
  pub last_write : ℕ

-- `REPARSE_DATA_BUFFER`: offsets and lengths count bytes of the path buffer.
pub record Reparse : Type 0 where
  pub tag : ℕ
  pub print_name_offset : ℕ
  pub print_name_length : ℕ
  pub substitute_name_offset : ℕ
  pub substitute_name_length : ℕ
  pub path_buffer : List ℕ

pub record Api (W : Type 0) : Type 0 where
  -- the C runtime
  pub malloc : Ext W Bool
  pub close : ℤ → Ext W ℤ
  pub get_osfhandle : ℤ → Ext W (Option ℕ)
  pub open_osfhandle : (handle flags : ℕ) → Ext W ℤ
  pub stat : Str → Ext W (ℤ × Stat)
  pub real_open : Str → (oflag mode : ℕ) → Ext W ℤ
  pub real_fdopen : ℤ → Str → Ext W (Option ℕ)
  pub unlink : Str → Ext W ℤ
  pub rmdir : Str → Ext W ℤ
  pub access : Str → ℕ → Ext W ℤ
  pub mkdir : Str → Ext W ℤ
  pub chmod : Str → ℕ → Ext W ℤ
  pub rename : Str → Str → Ext W ℤ
  -- Win32
  pub create_file : Str → (access share_mode attributes : ℕ) → Ext W (Option ℕ)
  pub close_handle : ℕ → Ext W Bool
  -- The result, and the string that the buffer of `PATH_MAX` bytes holds after the call.
  pub get_final_path_name : ℕ → Ext W (ℕ × Str)
  pub get_file_information : ℕ → Ext W (Option FileInfo)
  pub set_file_attributes : (handle attributes : ℕ) → Ext W Bool
  pub get_file_type : ℕ → Ext W ℕ
  pub query_granted_access : ℕ → Ext W (Option ℕ)
  pub get_reparse_point : ℕ → Ext W (Option Reparse)
  pub wide_to_multi_byte : (wide : List ℕ) (chars len : ℕ) → Ext W (Option Str)
  pub create_hard_link : Str → Str → Ext W Bool
  pub create_symbolic_link : Str → Str → ℕ → Ext W Bool
  pub seconds_since_1970 : ℕ → ℕ
  pub path_is_relative : Str → Bool
