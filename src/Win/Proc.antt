-- ===== src/Win/Proc.antt =====
-- The state of winsup/: the system, how many blocks of `malloc` the code holds, and the static
-- variables of internal/fd.c.
use magiskboot_build.Prelude.{ℕ, suc, ◌-◌, ℤ, minus_one, Bool, true, false, List, if◌then◌else◌}
use magiskboot_build.Errno.{Errno}
use magiskboot_build.Sys.{Sys, Ext, M, ok, abort, and_then}
use magiskboot_build.Win.Api.{Api}
use magiskboot_build.WinErr.Defs.{set_errno_via_winerr}

-- `fd_cache` and `fd_cache_max_size`; an entry is the flags of a descriptor, -1 if not cached.
pub record FdCache : Type 0 where
  pub oflags : List ℤ
  pub max_size : ℕ

pub record Proc (W : Type 0) : Type 0 where
  pub sys : Sys W
  pub live : ℕ
  pub cache : FdCache

-- The combinators of the C functions. They are shut, so that a law about a function is put together
-- from one law for each; `steps` opens them all.
module _ {W : Type 0} where
  module _ {A : Type 0} where
    unfoldable pub pure : A → M (Proc W) A
    pure a p = ok a p

    unfoldable pub gets : (Proc W → A) → M (Proc W) A
    gets f p = ok (f p) p

    unfoldable pub aborts : M (Proc W) A
    aborts p = abort

    unfoldable pub call : Ext W A → M (Proc W) A
    call e p = let (a, sys) = e p.sys in ok a (record p { sys = sys })

  unfoldable pub modify : (Proc W → Proc W) → M (Proc W) (Unit {0})
  modify f p = ok tt (f p)

  module _ {A B : Type 0} where
    infixl 5 ◌>>=◌ ◌>>◌
    unfoldable pub ◌>>=◌ : M (Proc W) A → (A → M (Proc W) B) → M (Proc W) B
    ◌>>=◌ m k p = and_then (m p) k

    unfoldable pub ◌>>◌ : M (Proc W) A → M (Proc W) B → M (Proc W) B
    ◌>>◌ m k p = and_then (m p) (λ _. k)

  -- `assert(e)`, where `e` is evaluated only in a build without `NDEBUG`.
  unfoldable pub assert : (ndebug : Bool) → M (Proc W) Bool → M (Proc W) (Unit {0})
  assert true e = pure tt
  assert false e = e >>= λ b. if b then pure tt else aborts

  unfoldable pub set_errno : Errno → M (Proc W) (Unit {0})
  set_errno e = modify (λ p. record p { sys = record (p.sys) { errno = e } })

  unfoldable pub set_last_error : ℕ → M (Proc W) (Unit {0})
  set_last_error e = modify (λ p. record p { sys = record (p.sys) { last_error = e } })

  -- `__set_errno_via_winerr(GetLastError())`
  unfoldable pub errno_from_last : M (Proc W) (Unit {0})
  errno_from_last = modify (λ p. record p { sys = set_errno_via_winerr p.sys.last_error p.sys })

  unfoldable pub fail_with : Errno → M (Proc W) ℤ
  fail_with e = set_errno e >> pure minus_one

  -- `malloc` and `strdup`: true when a block was got. `free` gives one back.
  unfoldable pub malloc : Api W → M (Proc W) Bool
  malloc api p =
      let (got, sys) = api.malloc p.sys in
      ok got (record p { sys = sys; live = if got then suc p.live else p.live })

  unfoldable pub free : M (Proc W) (Unit {0})
  free = modify (λ p. record p { live = p.live - 1 })

unfoldable pub steps : Unit {0}
unfolding pure gets aborts call modify ◌>>=◌ ◌>>◌ assert set_errno set_last_error errno_from_last
    fail_with malloc free
steps = tt
