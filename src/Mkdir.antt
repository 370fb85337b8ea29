-- ===== src/Mkdir.antt =====
-- winsup/mkdir.c.
pub mod Laws
mod Tests
use magiskboot_build.Prelude.{ℕ, ℤ, pos, minus_one, is_neg, is_zero, Bool, if◌then◌else◌}
use magiskboot_build.Sys.{M}
use magiskboot_build.Win.Api.{Api, Str}
use magiskboot_build.Win.Proc.{Proc, call, set_errno, pure, gets, assert, ◌>>=◌, ◌>>◌}

unfoldable pub mkdir_stub : {W : Type 0} → Api W → (ndebug : Bool) → Str → (mode : ℕ) → M (Proc W) ℤ
mkdir_stub api ndebug path mode = do
  made ← call (api.mkdir path)
  if is_neg made then pure minus_one else (do
    changed ← call (api.chmod path mode)
    if is_neg changed
        then (do
          old_errno ← gets (λ p. p.sys.errno)
          assert ndebug (call (api.rmdir path) >>= λ r. pure (is_zero r))
          set_errno old_errno
          pure minus_one)
        else pure (pos 0))
