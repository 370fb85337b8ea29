-- ===== src/At/Defs.antt =====
-- The functions of winsup/at.c. In each, a path that is not relative makes the descriptor idle, and
-- a relative one is joined to the descriptor's path in a block that is freed at the end.
pub mod Laws
use magiskboot_build.Prelude.{
  ℕ, ℤ, pos, minus_one, is_neg, ◌==◌, Bool, true, false, not, ◌&&◌, ◌||◌, Option, none, some,
  bit_and, if◌then◌else◌,
}
use magiskboot_build.Errno.{einval}
use magiskboot_build.Sys.{M}
use magiskboot_build.Win.Api.{Api, Str, Stat}
use magiskboot_build.Win.Flags.{
  r_ok, w_ok, x_ok, has, o_creat, s_iread_all, s_iwrite_all, s_iexec_all,
}
use magiskboot_build.Win.Proc.{Proc, call, set_errno, malloc, free, pure, aborts, ◌>>=◌, ◌>>◌}
use magiskboot_build.Link.Make.{link, symlink}
use magiskboot_build.Link.Read.{readlink}
use magiskboot_build.Stat.Defs.{lstat}
use magiskboot_build.Mkdir.{mkdir_stub}
use magiskboot_build.Open.{wrap_open}
use magiskboot_build.At.Path.{get_path_at}

abbrev pub at_removedir : ℕ
at_removedir = 1

abbrev pub at_symlink_nofollow : ℕ
at_symlink_nofollow = 2

module _ {W : Type 0} (api : Api W) (ndebug : Bool) where
  -- The shape that eight of the functions have; `failed` is what they return for -1.
  unfoldable pub with_path :
      {A : Type 0} → ℤ → Str → (failed : A) → (Str → M (Proc W) A) → M (Proc W) A
  with_path dirfd path failed action =
      if api.path_is_relative path
      then (do
        real_path ← get_path_at api ndebug dirfd path
        elim real_path [ none ↦ pure failed | some real ↦ (do ret ← action real; free; pure ret) ])
      else action path

  unfoldable pub readlinkat : ℤ → Str → (len : ℕ) → M (Proc W) (Option (ℕ × Str))
  readlinkat dirfd path len = with_path dirfd path none (λ p. readlink api ndebug p len)

  unfoldable pub symlinkat : Str → ℤ → Str → M (Proc W) ℤ
  symlinkat oldpath newdirfd newpath = with_path newdirfd newpath minus_one (symlink api oldpath)

  unfoldable pub unlinkat : ℤ → Str → (flags : ℕ) → M (Proc W) ℤ
  unlinkat dirfd pathname flags =
      if flags == at_removedir
      then with_path dirfd pathname minus_one (λ p. call (api.rmdir p))
      else if flags == 0
      then with_path dirfd pathname minus_one (λ p. call (api.unlink p))
      else set_errno einval >> pure minus_one

  -- `stat` of the C runtime as an action.
  abbrev pub stat_path : Str → M (Proc W) (Option Stat)
  stat_path p = do (r, buf) ← call (api.stat p); pure (if is_neg r then none else some buf)

  unfoldable pub fstatat : ℤ → Str → (flags : ℕ) → M (Proc W) (Option Stat)
  fstatat dirfd pathname flags =
      if flags == at_symlink_nofollow
      then with_path dirfd pathname none (lstat api ndebug)
      else if flags == 0
      then with_path dirfd pathname none stat_path
      else set_errno einval >> pure none

  unfoldable pub mkdirat : ℤ → Str → (mode : ℕ) → M (Proc W) ℤ
  mkdirat dirfd pathname mode =
      with_path dirfd pathname minus_one (λ p. mkdir_stub api ndebug p mode)

  -- The bits of `mode` that the file's own mode has for nobody.
  unfoldable pub denied : (mode st_mode : ℕ) → Bool
  denied mode st_mode =
      (has mode r_ok && not (has st_mode s_iread_all))
      || (has mode w_ok && not (has st_mode s_iwrite_all))
      || (has mode x_ok && not (has st_mode s_iexec_all))

  unfoldable pub faccessat : ℤ → Str → (mode flags : ℕ) → M (Proc W) ℤ
  faccessat dirfd path mode flags =
      if flags == at_symlink_nofollow
      then (do
        buf ← fstatat dirfd path at_symlink_nofollow
        elim buf [
          | none ↦ pure minus_one
          | some st ↦ pure (if denied (bit_and mode 7) st.st_mode then minus_one else pos 0)
        ])
      else if flags == 0
      then with_path dirfd path minus_one (λ p. call (api.access p mode))
      else set_errno einval >> pure minus_one

  -- A path for each operand of the functions on two paths: a copy in a block, if the path is not
  -- relative. Without a block `assert(0)` fails, and with `NDEBUG` a null pointer is used.
  unfoldable pub owned_path : ℤ → Str → M (Proc W) (Option Str)
  owned_path dirfd path =
      if api.path_is_relative path
      then get_path_at api ndebug dirfd path
      else (do got ← malloc api; if got then pure (some path) else aborts)

  -- `real_path1` and `real_path2` of `linkat` and `renameat`, freed in the end.
  unfoldable pub with_paths : ℤ → Str → ℤ → Str → (Str → Str → M (Proc W) ℤ) → M (Proc W) ℤ
  with_paths dirfd1 path1 dirfd2 path2 action = do
    real_path1 ← owned_path dirfd1 path1
    elim real_path1 [
      | none ↦ pure minus_one
      | some p1 ↦ (do
        real_path2 ← owned_path dirfd2 path2
        elim real_path2 [
          | none ↦ free >> pure minus_one
          | some p2 ↦ (do ret ← action p1 p2; free; free; pure ret)
        ])
    ]

  unfoldable pub linkat : ℤ → Str → ℤ → Str → (flags : ℕ) → M (Proc W) ℤ
  linkat dirfd1 path1 dirfd2 path2 flags = with_paths dirfd1 path1 dirfd2 path2 (link api)

  unfoldable pub renameat : ℤ → Str → ℤ → Str → M (Proc W) ℤ
  renameat olddirfd oldpath newdirfd newpath =
      with_paths olddirfd oldpath newdirfd newpath (λ p q. call (api.rename p q))

  -- The call of `open` names `pathname`, and not the path that was resolved.
  abbrev pub open_and_free : Str → (flags mode : ℕ) → M (Proc W) ℤ
  open_and_free pathname flags mode = do
    ret ← wrap_open api pathname flags (if has flags o_creat then mode else 0)
    free
    pure ret

  -- Without a block for the copy `assert(0)` fails, and with `NDEBUG` the call goes on without it.
  unfoldable pub openat : ℤ → Str → (flags mode : ℕ) → M (Proc W) ℤ
  openat dirfd pathname flags mode =
      if api.path_is_relative pathname
      then (do
        real_pathname ← get_path_at api ndebug dirfd pathname
        elim real_pathname [
          | none ↦ pure minus_one
          | some real ↦ open_and_free pathname flags mode
        ])
      else (do
        got ← malloc api
        if got
            then open_and_free pathname flags mode
            else if ndebug
            then wrap_open api pathname flags (if has flags o_creat then mode else 0)
            else aborts)
