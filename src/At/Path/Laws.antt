-- ===== src/At/Path/Laws.antt =====
-- The blocks of `__get_path_at` in winsup/internal/fd.c.
use magiskboot_build.Prelude.{◌+◌, ltb, ℤ, true, false, none, some, length}
use magiskboot_build.Errno.{enotdir, enametoolong}
use magiskboot_build.Win.Api.{Api, Str}
use magiskboot_build.Win.Flags.{s_isdir, path_max}
use magiskboot_build.Win.Proc.{malloc}
use magiskboot_build.Win.Balance.{
  Moves, Balanced, owned, Moves-pure, Moves-malloc, Moves-free, Moves-bind, Moves-then, Moves-if,
  Moves-errno, Moves-set_errno,
}
use magiskboot_build.Fd.Open.Laws.{fd_get_path-Moves}
use magiskboot_build.Stat.Defs.{fstat}
use magiskboot_build.Stat.Defs.Laws.{fstat-Balanced}
use magiskboot_build.At.Path.{joined, is_dirfd, join_path, get_path_at}

module _ {W : Type 0} (api : Api W) where
  pub is_dirfd-Balanced : (fd : ℤ) → Balanced (is_dirfd api false fd)
  unfolding is_dirfd
  is_dirfd-Balanced fd = Moves-bind (fstat api false fd) _ (fstat-Balanced api fd) (elim [
    | none ↦ Moves-then (Moves-set_errno 0 enotdir) (Moves-pure (λ _. 0) false)
    | some st ↦
        Moves-if (s_isdir st.st_mode) (Moves-pure (λ _. 0) true)
          (Moves-then (Moves-set_errno 0 enotdir) (Moves-pure (λ _. 0) false))
  ])

  -- The block of the parent's path goes back, and the one of the joined path is the result.
  join_path-Moves : (parent name : Str) → Moves 1 owned (join_path api false parent name)
  unfolding join_path
  join_path-Moves parent name =
      Moves-if (ltb path_max (length parent + 1 + length name))
        (Moves-then (Moves-set_errno 1 enametoolong)
          (Moves-then (Moves-free 0) (Moves-pure owned none)))
        (Moves-bind (malloc api) _ (Moves-malloc 1 api) (elim [
          | true ↦ Moves-then (Moves-free 1) (Moves-pure owned (some (joined parent name)))
          | false ↦ Moves-then (Moves-free 0) (Moves-pure owned none)
        ]))

  pub get_path_at-Moves : (fd : ℤ) (name : Str) → Moves 0 owned (get_path_at api false fd name)
  unfolding get_path_at
  get_path_at-Moves fd name = Moves-bind (is_dirfd api false fd) _ (is_dirfd-Balanced fd) λ dir.
      Moves-if dir
        (Moves-bind _ _ (fd_get_path-Moves api fd) (elim [
          | none ↦ Moves-then (Moves-errno 0) (Moves-pure owned none)
          | some p ↦ join_path-Moves p name
        ]))
        (Moves-pure owned none)
