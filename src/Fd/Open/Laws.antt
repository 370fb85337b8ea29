-- ===== src/Fd/Open/Laws.antt =====
-- The blocks that the functions of winsup/internal/fd.c take, and the paths that they give.
use magiskboot_build.Prelude.{ℕ, ℤ, minus_one, true, false, none, some, is_neg, ◌==◌}
use magiskboot_build.Win.Api.{Api, Str}
use magiskboot_build.Win.Proc.{call, malloc}
use magiskboot_build.Win.Balance.{
  Moves, Moves-pure, Moves-call, Moves-malloc, Moves-free, Moves-bind, Moves-then, Moves-if,
  Moves-set_last_error, owned,
}
use magiskboot_build.Fd.Open.{
  strip_prefix, final_path, fd_get_path, open_handle_fd, open_dir_fd, open_symlink_fd,
}

module _ {W : Type 0} (api : Api W) where
  final_path-Moves : (h : ℕ) → Moves 1 owned (final_path api h)
  unfolding final_path
  final_path-Moves h =
      Moves-bind (call (api.get_final_path_name h)) _ (Moves-call 1 _) λ (written, buf).
        Moves-if (written == 0) (Moves-then (Moves-free 0) (Moves-pure owned none))
          (Moves-pure owned (some (strip_prefix buf)))

  pub fd_get_path-Moves : (fd : ℤ) → Moves 0 owned (fd_get_path api fd)
  unfolding fd_get_path
  fd_get_path-Moves fd = Moves-bind (call (api.get_osfhandle fd)) _ (Moves-call 0 _) (elim [
    | none ↦ Moves-then (Moves-set_last_error 0 _) (Moves-pure owned none)
    | some h ↦
        Moves-bind (malloc api) _ (Moves-malloc 0 api)
          (elim [ true ↦ final_path-Moves h | false ↦ Moves-pure owned none ])
  ])

  open_handle_fd-Moves :
      (n : ℕ) (path : Str) (access share_mode flags attributes : ℕ)
      → Moves n (λ _. n) (open_handle_fd api path access share_mode flags attributes)
  unfolding open_handle_fd
  open_handle_fd-Moves n path access share_mode flags attributes =
      Moves-bind (call (api.create_file path access share_mode attributes)) _ (Moves-call n _)
        (elim [
          | none ↦ Moves-pure (λ _. n) minus_one
          | some h ↦ Moves-bind (call (api.open_osfhandle h flags)) _ (Moves-call n _) λ fd.
              Moves-if (is_neg fd)
                (Moves-then (Moves-set_last_error n _)
                  (Moves-then (Moves-call n (api.close_handle h)) (Moves-pure (λ _. n) minus_one)))
                (Moves-pure (λ _. n) fd)
        ])

  pub open_dir_fd-Moves :
      (n : ℕ) (path : Str) (access share_mode flags : ℕ)
      → Moves n (λ _. n) (open_dir_fd api path access share_mode flags)
  unfolding open_dir_fd
  open_dir_fd-Moves n path access share_mode flags =
      open_handle_fd-Moves n path access share_mode flags _

  pub open_symlink_fd-Moves :
      (n : ℕ) (path : Str) (access share_mode flags : ℕ)
      → Moves n (λ _. n) (open_symlink_fd api path access share_mode flags)
  unfolding open_symlink_fd
  open_symlink_fd-Moves n path access share_mode flags =
      open_handle_fd-Moves n path access share_mode flags _
