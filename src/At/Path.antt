-- ===== src/At/Path.antt =====
-- `__is_dirfd` and `__get_path_at` of winsup/internal/fd.c.
pub mod Laws
pub mod Bounds
use magiskboot_build.Prelude.{
  ℕ, ◌+◌, ltb, ℤ, Bool, true, false, Option, none, some, ◌∷◌, ◌++◌, length, if◌then◌else◌,
}
use magiskboot_build.Errno.{enotdir, enametoolong}
use magiskboot_build.Sys.{M}
use magiskboot_build.Win.Api.{Api, Str}
use magiskboot_build.Win.Flags.{s_isdir, path_max}
use magiskboot_build.Win.Proc.{
  Proc, call, set_errno, errno_from_last, malloc, free, pure, ◌>>=◌, ◌>>◌,
}
use magiskboot_build.Fd.Open.{fd_get_path}
use magiskboot_build.Stat.Defs.{fstat}

-- `"%s/%s"`
abbrev pub joined : Str → Str → Str
joined parent name = parent ++ (b'/' ∷ name)

module _ {W : Type 0} (api : Api W) (ndebug : Bool) where
  unfoldable pub is_dirfd : ℤ → M (Proc W) Bool
  is_dirfd fd = do
    buf ← fstat api ndebug fd
    elim buf [
      | none ↦ set_errno enotdir >> pure false
      | some st ↦ if s_isdir st.st_mode then pure true else set_errno enotdir >> pure false
    ]

  -- From `malloc` to the end. The buffer holds `PATH_MAX` bytes and a NUL.
  unfoldable pub join_path : (parent name : Str) → M (Proc W) (Option Str)
  join_path parent name =
      if ltb path_max (length parent + 1 + length name)
      then (do set_errno enametoolong; free; pure none)
      else do got ← malloc api; free; pure (if got then some (joined parent name) else none)

  -- A result is a block that the caller frees.
  unfoldable pub get_path_at : ℤ → Str → M (Proc W) (Option Str)
  get_path_at dirfd name = do
    dir ← is_dirfd dirfd
    if dir
        then (do
          parent ← fd_get_path api dirfd
          elim parent [ none ↦ errno_from_last >> pure none | some p ↦ join_path p name ])
        else pure none
