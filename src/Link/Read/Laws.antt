-- ===== src/Link/Read/Laws.antt =====
-- The blocks of `readlink` in winsup/link.c.
use magiskboot_build.Prelude.{
  ℕ, ◌+◌, ◌-◌, ◌==◌, is_neg, true, false, Option, none, some, List, length,
}
use magiskboot_build.Errno.{einval}
use magiskboot_build.Win.Api.{Api, Str, Reparse}
use magiskboot_build.Win.Proc.{call, malloc}
use magiskboot_build.Win.Balance.{
  Moves, Balanced, Moves-pure, Moves-call, Moves-malloc, Moves-free, Moves-aborts, Moves-bind,
  Moves-then, Moves-if, Moves-errno, Moves-set_errno,
}
use magiskboot_build.Fd.Open.Laws.{open_symlink_fd-Moves}
use magiskboot_build.Link.Read.{
  reparse_name, io_reparse_tag_symlink, finish, convert_name, convert, read_reparse, readlink,
}

module _ {W : Type 0} (api : Api W) where
  finish-Moves : (h : ℕ) (r : Option (ℕ × Str)) → Moves 1 (λ _. 0) (finish api false h r)
  finish-Moves h r =
      Moves-then (Moves-call 1 (api.close_handle h))
        (Moves-then (Moves-free 0) (Moves-pure (λ _. 0) r))

  convert_name-Moves :
      (h len : ℕ) (name : Option (List ℕ × ℕ))
      → Moves 1 (λ _. 0) (convert_name api false h len name)
  unfolding convert_name
  convert_name-Moves h len none = Moves-aborts 1 (λ _. 0)
  convert_name-Moves h len (some (ws_ptr, ws_len)) =
      Moves-bind (call (api.wide_to_multi_byte ws_ptr (ws_len + 1) len)) _ (Moves-call 1 _) (elim [
        | none ↦ Moves-aborts 1 (λ _. 0)
        | some buf ↦ finish-Moves h (some (length buf - 1, buf))
      ])

  convert-Moves :
      (h : ℕ) (buff : Reparse) (len : ℕ) → Moves 1 (λ _. 0) (convert api false h buff len)
  unfolding convert
  convert-Moves h buff len = convert_name-Moves h len (reparse_name buff)

  read_reparse-Moves : (h len : ℕ) → Balanced (read_reparse api false h len)
  unfolding read_reparse
  read_reparse-Moves h len = Moves-bind (malloc api) _ (Moves-malloc 0 api) (elim [
    | true ↦ Moves-bind (call (api.get_reparse_point h)) _ (Moves-call 1 _) (elim [
      | none ↦ Moves-then (Moves-errno 1) (finish-Moves h none)
      | some buff ↦
          Moves-if (buff.tag == io_reparse_tag_symlink) (convert-Moves h buff len)
            (Moves-then (Moves-set_errno 1 einval) (finish-Moves h none))
    ])
    | false ↦ Moves-then (Moves-call 0 (api.close_handle h)) (Moves-pure (λ _. 0) none)
  ])

  -- With assertions on, `readlink` frees the block that it takes, on every branch.
  pub readlink-Balanced : (path : Str) (len : ℕ) → Balanced (readlink api false path len)
  unfolding readlink
  readlink-Balanced path len =
      Moves-if (len == 0) (Moves-then (Moves-set_errno 0 einval) (Moves-pure (λ _. 0) none)) (
        Moves-bind _ _ (open_symlink_fd-Moves api 0 path _ _ _) λ fd.
          Moves-if (is_neg fd) (Moves-then (Moves-errno 0) (Moves-pure (λ _. 0) none)) (
            Moves-bind (call (api.get_osfhandle fd)) _ (Moves-call 0 _) (elim [
              | none ↦ Moves-then (Moves-call 0 (api.close fd)) (Moves-pure (λ _. 0) none)
              | some h ↦ read_reparse-Moves h len
            ])))
