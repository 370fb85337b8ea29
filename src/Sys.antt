-- ===== src/Sys.antt =====
-- What the C files share with the system below them: `errno`, the last Win32 error, and a world
-- that only the system reads. A call of a function outside src/ is an `Ext`; the C functions are
-- commands over a state of their component, which end with a result or by `abort` (a failed
-- `assert`, `abort()`, or a use of a null pointer).
use magiskboot_build.Prelude.{ℕ, Bool, true, false, ◌≡◌, refl, if◌then◌else◌}
use magiskboot_build.Errno.{Errno}

pub record Sys (W : Type 0) : Type 0 where
  pub errno : Errno
  pub last_error : ℕ
  pub world : W

abbrev pub Ext : Type 0 → Type 0 → Type 0
Ext W A = Sys W → A × Sys W

pub data Out (S A : Type 0) : Type 0 where
  ok : A → S → Out S A
  abort : Out S A

abbrev pub M : Type 0 → Type 0 → Type 0
M S A = S → Out S A

module _ {S : Type 0} where
  module _ {A : Type 0} where
    abbrev pub pure : A → M S A
    pure a s = ok a s

    abbrev pub gets : (S → A) → M S A
    gets f s = ok (f s) s

    abbrev pub aborts : M S A
    aborts s = abort

  abbrev pub modify : (S → S) → M S (Unit {0})
  modify f s = ok tt (f s)

  module _ {A B : Type 0} where
    abbrev pub and_then : Out S A → (A → M S B) → Out S B
    and_then (ok a s) k = k a s
    and_then abort k = abort

    infixl 5 ◌>>=◌ ◌>>◌
    abbrev pub ◌>>=◌ : M S A → (A → M S B) → M S B
    m >>= k = λ s. and_then (m s) k

    abbrev pub ◌>>◌ : M S A → M S B → M S B
    m >> k = λ s. and_then (m s) (λ _. k)

  -- `assert(e)`, where `e` is evaluated only in a build without `NDEBUG`.
  abbrev pub assert : (ndebug : Bool) → M S Bool → M S (Unit {0})
  assert true e = λ s. ok tt s
  assert false e = e >>= λ b. if b then pure tt else aborts

  -- What holds of every result; a run that aborts returns none.
  abbrev pub Post {ℓ} : {A : Type 0} → (A → S → Type ℓ) → Out S A → Type ℓ
  Post P (ok a s) = P a s
  Post P abort = Unit

  -- What holds of the result of a run that does not abort.
  abbrev pub Ensures : {A : Type 0} → (A → S → Type 0) → Out S A → Type 0
  Ensures P (ok a s) = P a s
  Ensures P abort = ⊥

  -- Rules for what holds of every result.
  module _ {ℓ} {A B : Type 0} where
    pub Post-bind :
        (P : A → S → Type ℓ) (Q : B → S → Type ℓ) (m : Out S A) (k : A → M S B)
        → Post P m
        → ((a : A) (s : S) → P a s → Post Q (k a s))
        → Post Q (and_then m k)
    Post-bind P Q (ok a s) k h next = next a s h
    Post-bind P Q abort k h next = tt

  -- A result is what the run gave.
  pub Post-refl : {A : Type 0} (m : Out S A) → Post (λ a s. m ≡ ok a s) m
  Post-refl (ok a s) = refl
  Post-refl abort = tt

  pub Post-mono {ℓ} :
      {A : Type 0} (P Q : A → S → Type ℓ) (m : Out S A)
      → Post P m
      → ((a : A) (s : S) → P a s → Q a s)
      → Post Q m
  Post-mono P Q (ok a s) h weaken = weaken a s h
  Post-mono P Q abort h weaken = tt

  pub Post-assert {ℓ} :
      (Q : S → Type ℓ) (ndebug : Bool) (e : M S Bool) (s : S)
      → Q s
      → Post (λ _ t. Q t) (e s)
      → Post (λ _ t. Q t) (assert ndebug e s)
  Post-assert Q true e s h p = h
  Post-assert Q false e s h p =
      Post-bind (λ _ t. Q t) (λ _ t. Q t) (e s) (λ b. if b then pure tt else aborts) p
        (λ b t q. check b t q)
    where
      check : (b : Bool) (t : S) → Q t → Post (λ _ t. Q t) ((if b then pure tt else aborts) t)
      check true t q = q
      check false t q = tt

  pub Ensures-bind :
      {A B : Type 0} (P : A → S → Type 0) (Q : B → S → Type 0) (m : Out S A) (k : A → M S B)
      → Ensures P m
      → ((a : A) (s : S) → P a s → Ensures Q (k a s))
      → Ensures Q (and_then m k)
  Ensures-bind P Q (ok a s) k h next = next a s h
  Ensures-bind P Q abort k h next = absurd h

  pub Ensures-mono :
      {A : Type 0} (P Q : A → S → Type 0) (m : Out S A)
      → Ensures P m
      → ((a : A) (s : S) → P a s → Q a s)
      → Ensures Q m
  Ensures-mono P Q (ok a s) h weaken = weaken a s h
  Ensures-mono P Q abort h weaken = absurd h
