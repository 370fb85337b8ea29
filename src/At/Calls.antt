-- ===== src/At/Calls.antt =====
-- The blocks of the functions that winsup/at.c calls: those of winsup/link.c, winsup/mkdir.c and
-- winsup/open.c, which take none but give back what they find.
use magiskboot_build.Prelude.{
  ℕ, ltb, length, refl, ℤ, pos, minus_one, is_neg, is_zero, ◌==◌, Bool, false, bit_and,
}
use magiskboot_build.Errno.{einval, eperm, eisdir}
use magiskboot_build.Win.Api.{Api, Str}
use magiskboot_build.Win.Flags.{has, s_isdir, o_creat, o_accmode, o_rdonly, o_wronly, o_rdwr}
use magiskboot_build.Win.Proc.{call, gets, assert}
use magiskboot_build.Win.Balance.{
  Balanced, Moves-pure, Moves-call, Moves-gets, Moves-aborts, Moves-bind, Moves-then, Moves-if,
  Moves-modify, Moves-errno, Moves-set_errno, Moves-fail_with,
}
use magiskboot_build.Fd.Open.Laws.{open_dir_fd-Moves}
use magiskboot_build.Fd.Cache.{fd_cache_oflag, store_oflag}
use magiskboot_build.Link.Make.{report, link, symlink}
use magiskboot_build.Mkdir.{mkdir_stub}
use magiskboot_build.Open.{open_directory, open_impl, wrap_open}

module _ {W : Type 0} (api : Api W) where
  report-Balanced : (done : Bool) → Balanced (report api done)
  report-Balanced done =
      Moves-if done (Moves-pure (λ _. 0) (pos 0))
        (Moves-then (Moves-errno 0) (Moves-pure (λ _. 0) minus_one))

  pub link-Balanced : (path1 path2 : Str) → Balanced (link api path1 path2)
  unfolding link
  link-Balanced path1 path2 = Moves-bind (call (api.stat path1)) _ (Moves-call 0 _) λ got.
      Moves-if (is_neg got.0) (Moves-pure (λ _. 0) minus_one) (
        Moves-if (s_isdir got.1.st_mode) (Moves-fail_with 0 eperm)
          (Moves-bind (call (api.create_hard_link path2 path1)) _ (Moves-call 0 _) report-Balanced))

  pub symlink-Balanced : (name1 name2 : Str) → Balanced (symlink api name1 name2)
  unfolding symlink
  symlink-Balanced name1 name2 =
      Moves-bind (call (api.stat name1)) _ (Moves-call 0 _)
        λ got. Moves-bind (call _) _ (Moves-call 0 _) report-Balanced

  pub mkdir_stub-Balanced : (path : Str) (mode : ℕ) → Balanced (mkdir_stub api false path mode)
  unfolding mkdir_stub assert
  mkdir_stub-Balanced path mode = Moves-bind (call (api.mkdir path)) _ (Moves-call 0 _) λ made.
      Moves-if (is_neg made) (Moves-pure (λ _. 0) minus_one) (
        Moves-bind (call (api.chmod path mode)) _ (Moves-call 0 _) λ changed.
          Moves-if (is_neg changed)
            (Moves-bind (gets _) _ (Moves-gets 0 _) λ old.
              Moves-then
                (Moves-bind _ _
                  (Moves-bind (call (api.rmdir path)) _ (Moves-call 0 _)
                    (λ r. Moves-pure (λ _. 0) (is_zero r)))
                  (λ b. Moves-if b (Moves-pure (λ _. 0) tt) (Moves-aborts 0 (λ _. 0))))
                (Moves-then (Moves-set_errno 0 old) (Moves-pure (λ _. 0) minus_one)))
            (Moves-pure (λ _. 0) (pos 0)))

  fd_cache_oflag-Balanced : (fd : ℤ) (oflag : ℕ) → Balanced (fd_cache_oflag {W = W} fd oflag)
  unfolding fd_cache_oflag
  fd_cache_oflag-Balanced (ℤ.negsuc n) oflag = Moves-aborts 0 (λ _. 0)
  fd_cache_oflag-Balanced (pos fd) oflag = Moves-bind (gets _) _ (Moves-gets 0 _) λ c.
      Moves-if (ltb fd (length c.oflags))
        (Moves-modify 0 (λ p. record p { cache = store_oflag fd oflag p.cache }) (λ p. refl))
        (Moves-aborts 0 (λ _. 0))

  open_directory-Balanced : (path : Str) (oflag : ℕ) → Balanced (open_directory api path oflag)
  unfolding open_directory
  open_directory-Balanced path oflag =
      let accmode = bit_and oflag o_accmode in
      Moves-if (accmode == o_rdonly)
        (Moves-bind _ _ (open_dir_fd-Moves api 0 path _ _ _) λ fd.
          Moves-if (is_neg fd) (Moves-then (Moves-errno 0) (Moves-pure (λ _. 0) minus_one))
            (Moves-pure (λ _. 0) fd))
        (Moves-if (accmode == o_wronly) (Moves-fail_with 0 eisdir)
          (Moves-if (accmode == o_rdwr) (Moves-fail_with 0 eisdir) (Moves-fail_with 0 einval)))

  open_impl-Balanced : (path : Str) (oflag mode : ℕ) → Balanced (open_impl api path oflag mode)
  unfolding open_impl
  open_impl-Balanced path oflag mode = Moves-if (has _ o_creat) (Moves-call 0 _) (
      Moves-bind (call (api.stat path)) _ (Moves-call 0 _) λ got.
        Moves-if (is_neg got.0) (Moves-call 0 _)
          (Moves-if (s_isdir got.1.st_mode) (open_directory-Balanced path _) (Moves-call 0 _)))

  pub wrap_open-Balanced : (path : Str) (oflag mode : ℕ) → Balanced (wrap_open api path oflag mode)
  unfolding wrap_open
  wrap_open-Balanced path oflag mode =
      Moves-bind (open_impl api path oflag mode) _ (open_impl-Balanced path oflag mode) λ fd.
        Moves-if (is_neg fd) (Moves-pure (λ _. 0) fd)
          (Moves-then (fd_cache_oflag-Balanced fd oflag) (Moves-pure (λ _. 0) fd))
