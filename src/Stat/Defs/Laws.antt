-- ===== src/Stat/Defs/Laws.antt =====
-- The blocks of `fstat` and `lstat` in winsup/stat.c.
use magiskboot_build.Prelude.{ℕ, ◌==◌, ℤ, is_neg, false, Option, none, some}
use magiskboot_build.Errno.{enoent}
use magiskboot_build.Win.Api.{Api, Str, FileInfo}
use magiskboot_build.Win.Flags.{has, path_max, file_attribute_reparse_point}
use magiskboot_build.Win.Proc.{call}
use magiskboot_build.Win.Balance.{
  Moves, Balanced, owned, Moves-pure, Moves-call, Moves-gets, Moves-free, Moves-bind, Moves-then,
  Moves-if, Moves-frame, Moves-errno, Moves-set_errno,
}
use magiskboot_build.Fd.Open.Laws.{fd_get_path-Moves, open_symlink_fd-Moves}
use magiskboot_build.Link.Read.{readlink}
use magiskboot_build.Link.Read.Laws.{readlink-Balanced}
use magiskboot_build.Stat.Defs.{
  file_type_unknown, free_path, link_size, file_size, unknown_type, fill_stat, fstat, lstat,
}

module _ {W : Type 0} (api : Api W) where
  free_path-Moves : (path : Option Str) → Moves (owned path) (λ _. 0) (free_path api false path)
  free_path-Moves none = Moves-pure (λ _. 0) tt
  free_path-Moves (some p) = Moves-free 0

  link_size-Moves :
      (path : Option Str) → Moves (owned path) (λ _. owned path) (link_size api false path)
  unfolding link_size
  link_size-Moves none = Moves-pure (λ _. 0) 0
  link_size-Moves (some p) =
      Moves-bind (readlink api false p path_max) _
        (Moves-frame 1 (readlink-Balanced api p path_max))
        (elim [ none ↦ Moves-pure (λ _. 1) 0 | some (n, b) ↦ Moves-pure (λ _. 1) n ])

  file_size-Moves :
      (hfi : FileInfo) (path : Option Str)
      → Moves (owned path) (λ _. owned path) (file_size api false hfi path)
  unfolding file_size
  file_size-Moves hfi path =
      Moves-if (has hfi.attributes file_attribute_reparse_point) (link_size-Moves path)
        (Moves-pure (λ _. owned path) _)

  unknown_type-Moves : (n : ℕ) → Moves n (λ _. n) (unknown_type api false)
  unfolding unknown_type
  unknown_type-Moves n =
      Moves-bind _ _ (Moves-gets n _)
        λ winerr. Moves-if (winerr == 0) (Moves-set_errno n enoent) (Moves-errno n)

  fill_stat-Moves :
      (fd : ℤ) (h : ℕ) (hfi : FileInfo) (path : Option Str)
      → Moves (owned path) (λ _. 0) (fill_stat api false fd h hfi path)
  unfolding fill_stat
  fill_stat-Moves fd h hfi path =
      Moves-bind (call (api.get_file_type h)) _ (Moves-call (owned path) _) λ type.
        Moves-if (type == file_type_unknown)
          (Moves-then (unknown_type-Moves (owned path))
            (Moves-then (free_path-Moves path) (Moves-pure (λ _. 0) none)))
          (Moves-bind (file_size api false hfi path) _ (file_size-Moves hfi path)
            λ size. Moves-then (free_path-Moves path) (Moves-pure (λ _. 0) _))

  -- With assertions on, `fstat` frees the path that it asks for, on every branch.
  pub fstat-Balanced : (fd : ℤ) → Balanced (fstat api false fd)
  unfolding fstat
  fstat-Balanced fd = Moves-bind (call (api.get_osfhandle fd)) _ (Moves-call 0 _) (elim [
    | none ↦ Moves-pure (λ _. 0) none
    | some h ↦ Moves-bind (call (api.get_file_information h)) _ (Moves-call 0 _) (elim [
      | none ↦ Moves-then (Moves-errno 0) (Moves-pure (λ _. 0) none)
      | some hfi ↦ Moves-bind _ _ (fd_get_path-Moves api fd) (λ path. fill_stat-Moves fd h hfi path)
    ])
  ])

  pub lstat-Balanced : (path : Str) → Balanced (lstat api false path)
  unfolding lstat
  lstat-Balanced path = Moves-bind _ _ (open_symlink_fd-Moves api 0 path _ _ _) λ fd.
      Moves-if (is_neg fd) (Moves-then (Moves-errno 0) (Moves-pure (λ _. 0) none)) (
        Moves-bind (fstat api false fd) _ (fstat-Balanced fd)
          λ r. Moves-then (Moves-call 0 (api.close fd)) (Moves-pure (λ _. 0) r))
