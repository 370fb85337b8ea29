-- ===== src/Dirent.antt =====
-- winsup/dirent.c: streams of directory entries that know their descriptor. The structures are those
-- of include/winsup/dirent_compat.h.
pub mod Open
pub mod Read
pub mod Seek
mod Tests
use magiskboot_build.Prelude.{ℕ, ℤ, Option, List}
use magiskboot_build.Sys.{Ext}
use magiskboot_build.Win.Api.{Str}

-- `struct dirent` of the C runtime.
pub record Entry : Type 0 where
  pub d_ino : ℕ
  pub d_reclen : ℕ
  pub d_namlen : ℕ
  pub d_name : Str

-- `struct _dirent_stub`; `d_name` is the array with all its bytes.
pub record DirentStub : Type 0 where
  pub d_ino : ℕ
  pub d_type : ℕ
  pub d_reclen : ℕ
  pub d_namlen : ℕ
  pub d_name : List ℕ

-- `_DIR_stub`; `dirp` is `none` for a null pointer.
pub record DirStub : Type 0 where
  pub dirp : Option ℕ
  pub fd : ℤ

-- The functions of the C runtime on its own streams, and `lseek`. A stream is a number.
pub record DirApi (W : Type 0) : Type 0 where
  pub opendir : Str → Ext W (Option ℕ)
  pub readdir : ℕ → Ext W (Option Entry)
  pub closedir : ℕ → Ext W ℤ
  pub rewinddir : ℕ → Ext W (Unit {0})
  pub telldir : ℕ → Ext W ℤ
  pub seekdir : ℕ → (loc : ℤ) → Ext W (Unit {0})
  pub lseek : (fd offset : ℤ) → (whence : ℕ) → Ext W ℤ

abbrev pub seek_set : ℕ
seek_set = 0

abbrev pub seek_cur : ℕ
seek_cur = 1
