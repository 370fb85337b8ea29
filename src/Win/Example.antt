-- ===== src/Win/Example.antt =====
-- A small system for the tests of winsup/: every name is a directory, its descriptor is 3 and the
-- descriptor's path is "C:\d". The world is the list of the paths that were opened by name, newest
-- first.
use magiskboot_build.Prelude.{
  ℕ, ℤ, pos, minus_one, ◌==◌, Bool, true, false, Option, none, some, List, [], ◌∷◌, if◌then◌else◌,
}
use magiskboot_build.Errno.{no_error}
use magiskboot_build.Sys.{Ext}
use magiskboot_build.Win.Api.{Api, Str, Stat, FileInfo}
use magiskboot_build.Win.Proc.{Proc}

abbrev pub Opened : Type 0
Opened = List Str

-- A call that answers `a` and changes nothing.
abbrev pub answers : {W A : Type 0} → A → Ext W A
answers a s = (a, s)

abbrev pub note_open : {W : Type 0} → (Str → W → W) → Str → Ext W ℤ
note_open note path s = (pos 4, record s { world = note path s.world })

abbrev pub handle_of : ℤ → Option ℕ
handle_of (pos n) = some n
handle_of (ℤ.negsuc n) = none

-- "C:\d", as `GetFinalPathNameByHandle` gives it.
abbrev pub dir_path : Str
dir_path = 0x5c ∷ 0x5c ∷ b'?' ∷ 0x5c ∷ b'C' ∷ b':' ∷ 0x5c ∷ b'd' ∷ []

-- A path that starts with `/` is absolute.
abbrev pub is_relative : Str → Bool
is_relative [] = true
is_relative (c ∷ cs) = if c == b'/' then false else true

abbrev pub dir_stat : Stat
dir_stat = record {
  st_mode = 0x4000;
  st_dev = pos 0;
  st_rdev = pos 0;
  st_nlink = 1;
  st_size = 0;
  st_atime = 0;
  st_mtime = 0;
  st_ctime = 0;
}

abbrev pub dir_info : FileInfo
dir_info = record {
  attributes = 0x10;
  links = 1;
  size_high = 0;
  size_low = 0;
  last_access = 0;
  last_write = 0;
}

-- The system, over a world in which `note` notes a path that is opened.
abbrev pub api_over : {W : Type 0} → (note : Str → W → W) → Api W
api_over note = record {
  malloc = answers true;
  close = λ fd. answers (pos 0);
  get_osfhandle = λ fd. answers (handle_of fd);
  open_osfhandle = λ h flags. answers (pos h);
  stat = λ path. answers (pos 0, record dir_stat { st_mode = 0x8000 });
  real_open = λ path oflag mode. note_open note path;
  real_fdopen = λ fd mode. answers (some 1);
  unlink = λ path. answers (pos 0);
  rmdir = λ path. answers (pos 0);
  access = λ path mode. answers (pos 0);
  mkdir = λ path. answers (pos 0);
  chmod = λ path mode. answers (pos 0);
  rename = λ from to. answers (pos 0);
  create_file = λ path access share attributes. answers (some 3);
  close_handle = λ h. answers true;
  get_final_path_name = λ h. answers (8, dir_path);
  get_file_information = λ h. answers (some dir_info);
  set_file_attributes = λ h attributes. answers true;
  get_file_type = λ h. answers 1;
  query_granted_access = λ h. answers (some 4);
  get_reparse_point = λ h. answers none;
  wide_to_multi_byte = λ wide chars len. answers none;
  create_hard_link = λ to from. answers true;
  create_symbolic_link = λ to from flags. answers true;
  seconds_since_1970 = λ time. 0;
  path_is_relative = is_relative;
}

abbrev pub example_api : Api Opened
example_api = api_over ◌∷◌

abbrev pub example_proc : Proc Opened
example_proc = record {
  sys = record { errno = no_error; last_error = 0; world = [] };
  live = 0;
  cache = record {
    oflags = minus_one ∷ minus_one ∷ minus_one ∷ minus_one ∷ minus_one ∷ minus_one ∷ [];
    max_size = 0;
  };
}
