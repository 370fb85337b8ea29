-- ===== src/At/Defs/Laws.antt =====
-- The blocks of the functions of winsup/at.c.
use magiskboot_build.Prelude.{ℕ, ℤ, minus_one, ◌==◌, true, false, none, some}
use magiskboot_build.Errno.{einval}
use magiskboot_build.Sys.{M}
use magiskboot_build.Win.Api.{Api, Str}
use magiskboot_build.Win.Proc.{Proc, set_errno, call, malloc, pure, ◌>>◌}
use magiskboot_build.Win.Balance.{
  Moves, Balanced, owned, Moves-pure, Moves-call, Moves-malloc, Moves-free, Moves-aborts,
  Moves-bind, Moves-then, Moves-if, Moves-frame, Moves-set_errno,
}
use magiskboot_build.Link.Read.Laws.{readlink-Balanced}
use magiskboot_build.Stat.Defs.Laws.{lstat-Balanced}
use magiskboot_build.Open.{wrap_open}
use magiskboot_build.At.Calls.{
  link-Balanced, symlink-Balanced, mkdir_stub-Balanced, wrap_open-Balanced,
}
use magiskboot_build.At.Path.{get_path_at}
use magiskboot_build.At.Path.Laws.{get_path_at-Moves}
use magiskboot_build.At.Defs.{
  at_removedir, at_symlink_nofollow, with_path, readlinkat, symlinkat, unlinkat, stat_path, fstatat,
  mkdirat, faccessat, owned_path, with_paths, linkat, renameat, open_and_free, openat,
}

module _ {W : Type 0} (api : Api W) where
  with_path-Balanced :
      {A : Type 0} (dirfd : ℤ) (path : Str) (failed : A) (action : Str → M (Proc W) A)
      → ((p : Str) → Balanced (action p))
      → Balanced (with_path api false dirfd path failed action)
  unfolding with_path
  with_path-Balanced dirfd path failed action h =
      Moves-if (api.path_is_relative path)
        (Moves-bind (get_path_at api false dirfd path) _ (get_path_at-Moves api dirfd path) (elim [
          | none ↦ Moves-pure (λ _. 0) failed
          | some real ↦
              Moves-bind (action real) _ (Moves-frame 1 (h real))
                λ ret. Moves-then (Moves-free 0) (Moves-pure (λ _. 0) ret)
        ]))
        (h path)

  owned_path-Moves : (dirfd : ℤ) (path : Str) → Moves 0 owned (owned_path api false dirfd path)
  unfolding owned_path
  owned_path-Moves dirfd path =
      Moves-if (api.path_is_relative path) (get_path_at-Moves api dirfd path) (
        Moves-bind (malloc api) _ (Moves-malloc 0 api)
          (elim [ true ↦ Moves-pure owned (some path) | false ↦ Moves-aborts 0 owned ]))

  with_paths-Balanced :
      (dirfd1 : ℤ) (path1 : Str) (dirfd2 : ℤ) (path2 : Str) (action : Str → Str → M (Proc W) ℤ)
      → ((p q : Str) → Balanced (action p q))
      → Balanced (with_paths api false dirfd1 path1 dirfd2 path2 action)
  unfolding with_paths
  with_paths-Balanced dirfd1 path1 dirfd2 path2 action h =
      Moves-bind (owned_path api false dirfd1 path1) _ (owned_path-Moves dirfd1 path1) (elim [
        | none ↦ Moves-pure (λ _. 0) minus_one
        | some p ↦ Moves-bind _ _ (Moves-frame 1 (owned_path-Moves dirfd2 path2)) (elim [
          | none ↦ Moves-then (Moves-free 0) (Moves-pure (λ _. 0) minus_one)
          | some q ↦
              Moves-bind (action p q) _ (Moves-frame 2 (h p q)) λ ret.
                Moves-then (Moves-free 1) (Moves-then (Moves-free 0) (Moves-pure (λ _. 0) ret))
        ])
      ])

  stat_path-Balanced : (path : Str) → Balanced (stat_path api false path)
  stat_path-Balanced path =
      Moves-bind (call (api.stat path)) _ (Moves-call 0 _) (λ got. Moves-pure (λ _. 0) _)

  -- What an unknown flag leads to.
  invalid-Balanced : {A : Type 0} (a : A) → Balanced {W = W} (set_errno einval >> pure a)
  invalid-Balanced a = Moves-then (Moves-set_errno 0 einval) (Moves-pure (λ _. 0) a)

  pub readlinkat-Balanced :
      (dirfd : ℤ) (path : Str) (len : ℕ) → Balanced (readlinkat api false dirfd path len)
  unfolding readlinkat
  readlinkat-Balanced dirfd path len =
      with_path-Balanced dirfd path none _ (λ p. readlink-Balanced api p len)

  pub symlinkat-Balanced :
      (oldpath : Str) (newdirfd : ℤ) (newpath : Str)
      → Balanced (symlinkat api false oldpath newdirfd newpath)
  unfolding symlinkat
  symlinkat-Balanced oldpath newdirfd newpath =
      with_path-Balanced newdirfd newpath minus_one _ (symlink-Balanced api oldpath)

  pub unlinkat-Balanced :
      (dirfd : ℤ) (path : Str) (flags : ℕ) → Balanced (unlinkat api false dirfd path flags)
  unfolding unlinkat
  unlinkat-Balanced dirfd path flags =
      Moves-if (flags == at_removedir)
        (with_path-Balanced dirfd path minus_one _ (λ p. Moves-call 0 _))
        (Moves-if (flags == 0) (with_path-Balanced dirfd path minus_one _ (λ p. Moves-call 0 _))
          (invalid-Balanced minus_one))

  pub fstatat-Balanced :
      (dirfd : ℤ) (path : Str) (flags : ℕ) → Balanced (fstatat api false dirfd path flags)
  unfolding fstatat
  fstatat-Balanced dirfd path flags =
      Moves-if (flags == at_symlink_nofollow)
        (with_path-Balanced dirfd path none _ (lstat-Balanced api))
        (Moves-if (flags == 0) (with_path-Balanced dirfd path none _ stat_path-Balanced)
          (invalid-Balanced none))

  pub mkdirat-Balanced :
      (dirfd : ℤ) (path : Str) (mode : ℕ) → Balanced (mkdirat api false dirfd path mode)
  unfolding mkdirat
  mkdirat-Balanced dirfd path mode =
      with_path-Balanced dirfd path minus_one _ (λ p. mkdir_stub-Balanced api p mode)

  pub faccessat-Balanced :
      (dirfd : ℤ) (path : Str) (mode flags : ℕ)
      → Balanced (faccessat api false dirfd path mode flags)
  unfolding faccessat
  faccessat-Balanced dirfd path mode flags =
      Moves-if (flags == at_symlink_nofollow)
        (Moves-bind (fstatat api false dirfd path _) _ (fstatat-Balanced dirfd path _)
          (elim [ none ↦ Moves-pure (λ _. 0) minus_one | some st ↦ Moves-pure (λ _. 0) _ ]))
        (Moves-if (flags == 0) (with_path-Balanced dirfd path minus_one _ (λ p. Moves-call 0 _))
          (invalid-Balanced minus_one))

  pub linkat-Balanced :
      (dirfd1 : ℤ) (path1 : Str) (dirfd2 : ℤ) (path2 : Str) (flags : ℕ)
      → Balanced (linkat api false dirfd1 path1 dirfd2 path2 flags)
  unfolding linkat
  linkat-Balanced dirfd1 path1 dirfd2 path2 flags =
      with_paths-Balanced dirfd1 path1 dirfd2 path2 _ (link-Balanced api)

  pub renameat-Balanced :
      (olddirfd : ℤ) (oldpath : Str) (newdirfd : ℤ) (newpath : Str)
      → Balanced (renameat api false olddirfd oldpath newdirfd newpath)
  unfolding renameat
  renameat-Balanced olddirfd oldpath newdirfd newpath =
      with_paths-Balanced olddirfd oldpath newdirfd newpath _ (λ p q. Moves-call 0 _)

  open_and_free-Moves :
      (path : Str) (flags mode : ℕ) → Moves 1 (λ _. 0) (open_and_free api false path flags mode)
  open_and_free-Moves path flags mode =
      Moves-bind (wrap_open api path flags _) _
        (Moves-frame 1 (wrap_open-Balanced api path flags _))
        λ ret. Moves-then (Moves-free 0) (Moves-pure (λ _. 0) ret)

  pub openat-Balanced :
      (dirfd : ℤ) (path : Str) (flags mode : ℕ) → Balanced (openat api false dirfd path flags mode)
  unfolding openat
  openat-Balanced dirfd path flags mode =
      Moves-if (api.path_is_relative path)
        (Moves-bind (get_path_at api false dirfd path) _ (get_path_at-Moves api dirfd path) (elim [
          | none ↦ Moves-pure (λ _. 0) minus_one
          | some real ↦ open_and_free-Moves path flags mode
        ]))
        (Moves-bind (malloc api) _ (Moves-malloc 0 api)
          (elim [ true ↦ open_and_free-Moves path flags mode | false ↦ Moves-aborts 0 (λ _. 0) ]))
