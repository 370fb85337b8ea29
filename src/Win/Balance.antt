-- ===== src/Win/Balance.antt =====
-- How many blocks of `malloc` a function of winsup/ takes and leaves, with a rule for each way in
-- which the functions are put together.
use magiskboot_build.Prelude.{
  ℕ, minus_one, suc, ◌+◌, ◌≤◌, Bool, true, false, Option, none, some, ◌≡◌, refl, arith,
  if◌then◌else◌,
}
use magiskboot_build.Sys.{Ext, M, Post, Post-bind, Post-mono}
use magiskboot_build.Errno.{Errno}
use magiskboot_build.WinErr.Defs.{set_errno_via_winerr}
use magiskboot_build.Win.Api.{Api}
use magiskboot_build.Win.Proc.{
  Proc, call, malloc, free, errno_from_last, set_errno, set_last_error, fail_with, pure, aborts,
  modify, gets, ◌>>=◌, ◌>>◌,
}

-- A run that starts with `n` blocks of its own ends with `g a` of them, where `a` is its result.
pub record Moves {W A : Type 0} (n : ℕ) (g : A → ℕ) (m : M (Proc W) A) : Type 0 where
  pub run : (p : Proc W) → n ≤ p.live → Post (λ a q. q.live + n ≡ p.live + g a) (m p)

module _ {W : Type 0} where
  pub Moves-pure : {A : Type 0} (g : A → ℕ) (a : A) → Moves {W = W} (g a) g (pure a)
  unfolding pure
  Moves-pure g a = record { run = λ p h. refl }

  pub Moves-call : {A : Type 0} (n : ℕ) (e : Ext W A) → Moves n (λ _. n) (call e)
  unfolding call
  Moves-call n e = record { run = λ p h. refl }

  pub Moves-gets : {A : Type 0} (n : ℕ) (f : Proc W → A) → Moves n (λ _. n) (gets f)
  unfolding gets
  Moves-gets n f = record { run = λ p h. refl }

  pub Moves-malloc : (n : ℕ) (api : Api W) → Moves n (λ got. if got then suc n else n) (malloc api)
  unfolding malloc
  Moves-malloc n api = record { run = λ p h. grown (api.malloc p.sys).0 p }
    where
      grown :
          (b : Bool) (p : Proc W)
          → (if b then suc p.live else p.live) + n ≡ p.live + (if b then suc n else n)
      grown true p = omega arith
      grown false p = omega arith

  pub Moves-free : (n : ℕ) → Moves {W = W} (suc n) (λ _. n) free
  unfolding free modify
  Moves-free n = record { run = λ p h. omega arith }

  pub Moves-aborts : {A : Type 0} (n : ℕ) (g : A → ℕ) → Moves {W = W} n g aborts
  unfolding aborts
  Moves-aborts n g = record { run = λ p h. tt }

  module _ {A B : Type 0} where
    pub Moves-bind :
        {n : ℕ} {f : A → ℕ} {g : B → ℕ} (m : M (Proc W) A) (k : A → M (Proc W) B)
        → Moves n f m
        → ((a : A) → Moves (f a) g (k a))
        → Moves n g (m >>= k)
    unfolding ◌>>=◌
    Moves-bind {n} {f} {g} m k h next = record {
      run = λ p le.
          Post-bind (λ a q. q.live + n ≡ p.live + f a) (λ b r. r.live + n ≡ p.live + g b) (m p) k
            (h.run p le)
            λ a q e.
              Post-mono (λ b r. r.live + f a ≡ q.live + g b) (λ b r. r.live + n ≡ p.live + g b)
                (k a q) ((next a).run q (omega arith)) λ b r d. omega arith;
    }

    pub Moves-then :
        {n k : ℕ} {g : B → ℕ} {m : M (Proc W) A} {r : M (Proc W) B}
        → Moves n (λ _. k) m
        → Moves k g r
        → Moves n g (m >> r)
    unfolding ◌>>=◌ ◌>>◌
    Moves-then {k} {m} {r} h next =
        let b = Moves-bind m (λ _. r) h (λ _. next) in record { run = b.run }

  module _ {A : Type 0} {n : ℕ} {g : A → ℕ} where
    pub Moves-if :
        (b : Bool) {x y : M (Proc W) A} → Moves n g x → Moves n g y → Moves n g (if b then x else y)
    Moves-if true h k = h
    Moves-if false h k = k

  pub Moves-modify :
      (n : ℕ) (f : Proc W → Proc W)
      → ((p : Proc W) → (f p).live ≡ p.live)
      → Moves n (λ _. n) (modify f)
  unfolding modify
  Moves-modify n f same = record { run = λ p h. omega (arith, same p) }

  pub Moves-errno : (n : ℕ) → Moves {W = W} n (λ _. n) errno_from_last
  unfolding errno_from_last
  Moves-errno n =
      Moves-modify n (λ p. record p { sys = set_errno_via_winerr p.sys.last_error p.sys })
        (λ p. refl)

  pub Moves-set_errno : (n : ℕ) (e : Errno) → Moves {W = W} n (λ _. n) (set_errno e)
  unfolding set_errno
  Moves-set_errno n e =
      Moves-modify n (λ p. record p { sys = record (p.sys) { errno = e } }) (λ p. refl)

  pub Moves-set_last_error : (n e : ℕ) → Moves {W = W} n (λ _. n) (set_last_error e)
  unfolding set_last_error
  Moves-set_last_error n e =
      Moves-modify n (λ p. record p { sys = record (p.sys) { last_error = e } }) (λ p. refl)

  pub Moves-fail_with : (n : ℕ) (e : Errno) → Moves {W = W} n (λ _. n) (fail_with e)
  unfolding fail_with
  Moves-fail_with n e = Moves-then (Moves-set_errno n e) (Moves-pure (λ _. n) minus_one)

  -- What a function does with no block of its own it does beside `k` more.
  pub Moves-frame :
      {A : Type 0} {n : ℕ} {g : A → ℕ} {m : M (Proc W) A} (k : ℕ)
      → Moves n g m
      → Moves (n + k) (λ a. g a + k) m
  Moves-frame {n} {g} {m} k h = record {
    run = λ p le.
        Post-mono (λ a q. q.live + n ≡ p.live + g a) (λ a q. q.live + (n + k) ≡ p.live + (g a + k))
          (m p) (h.run p (omega arith)) λ a q e. omega arith;
  }

-- A result that is a block counts as one.
abbrev pub owned : {A : Type 0} → Option A → ℕ
owned none = 0
owned (some a) = 1

-- A function that frees what it takes.
abbrev pub Balanced : {W A : Type 0} → M (Proc W) A → Type 0
Balanced m = Moves 0 (λ _. 0) m
