-- ===== src/Prelude/Lists.antt =====
-- Lists measured and indexed by native numbers, under the library's names.
use Prim.Native.Nat.{ℕ, zero, suc, ◌+◌, ◌-◌, ◌≤◌, ◌<◌, min}
use mathlib.Core.Path.{◌≡◌, refl, ap}
use mathlib.Core.Logic.{◌≢◌}
use mathlib.Core.Bool.{Bool, true, false}
use mathlib.Core.List.{List, [], ◌∷◌, ◌++◌}
use mathlib.Core.Option.{Option, none, some}
use native.Mathlib.Omega.{arith}
use magiskboot_build.Prelude.Tests.{◌==◌, if◌then◌else◌}

module _ {ℓ} {A : Type ℓ} where
  abbrev pub length : List A → ℕ
  length [] = 0
  length (x ∷ xs) = suc (length xs)

  abbrev pub get_elem? : List A → ℕ → Option A
  get_elem? [] i = none
  get_elem? (x ∷ xs) zero = some x
  get_elem? (x ∷ xs) (suc i) = get_elem? xs i

  abbrev pub get_or : List A → ℕ → A → A
  get_or [] i d = d
  get_or (x ∷ xs) zero d = x
  get_or (x ∷ xs) (suc i) d = get_or xs i d

  -- A write out of bounds changes nothing.
  abbrev pub set : List A → ℕ → A → List A
  set [] i v = []
  set (x ∷ xs) zero v = v ∷ xs
  set (x ∷ xs) (suc i) v = x ∷ set xs i v

  abbrev pub take : ℕ → List A → List A
  take zero xs = []
  take (suc n) [] = []
  take (suc n) (x ∷ xs) = x ∷ take n xs

  abbrev pub drop : ℕ → List A → List A
  drop zero xs = xs
  drop (suc n) [] = []
  drop (suc n) (x ∷ xs) = drop n xs

  abbrev pub replicate : ℕ → A → List A
  replicate zero a = []
  replicate (suc n) a = a ∷ replicate n a

  pub length-append : (xs ys : List A) → length (xs ++ ys) ≡ length xs + length ys
  length-append [] ys = omega arith
  length-append (x ∷ xs) ys = omega (arith, length-append xs ys)

  pub length-take : (n : ℕ) (xs : List A) → length (take n xs) ≡ min n (length xs)
  length-take zero xs = omega arith
  length-take (suc n) [] = omega arith
  length-take (suc n) (x ∷ xs) = omega (arith, length-take n xs)

  pub length-drop : (n : ℕ) (xs : List A) → length (drop n xs) ≡ length xs - n
  length-drop zero xs = omega arith
  length-drop (suc n) [] = omega arith
  length-drop (suc n) (x ∷ xs) = omega (arith, length-drop n xs)

  pub length-replicate : (n : ℕ) (a : A) → length (replicate n a) ≡ n
  length-replicate zero a = refl
  length-replicate (suc n) a = ap suc (length-replicate n a)

-- `memcmp` and `strncmp` for equality, on bytes.
abbrev pub starts_with : List ℕ → List ℕ → Bool
starts_with [] s = true
starts_with (x ∷ xs) [] = false
starts_with (x ∷ xs) (y ∷ ys) = if x == y then starts_with xs ys else false

abbrev pub contains : ℕ → List ℕ → Bool
contains c [] = false
contains c (x ∷ xs) = if x == c then true else contains c xs

pub length-set : {A : Type 0} (xs : List A) (i : ℕ) (a : A) → length (set xs i a) ≡ length xs
length-set [] i a = refl
length-set (x ∷ xs) zero a = refl
length-set (x ∷ xs) (suc i) a = omega (arith, length-set xs i a)

pub get_or-set-same :
    {A : Type 0} (xs : List A) (i : ℕ) (a d : A) → i < length xs → get_or (set xs i a) i d ≡ a
get_or-set-same [] i a d h = ground arith
get_or-set-same (x ∷ xs) zero a d h = refl
get_or-set-same (x ∷ xs) (suc i) a d h = get_or-set-same xs i a d (omega arith)

pub get_or-set-other :
    {A : Type 0} (xs : List A) (i j : ℕ) (a d : A) → i ≢ j → get_or (set xs i a) j d ≡ get_or xs j d
get_or-set-other [] i j a d h = refl
get_or-set-other (x ∷ xs) zero zero a d h = absurd (h refl)
get_or-set-other (x ∷ xs) zero (suc j) a d h = refl
get_or-set-other (x ∷ xs) (suc i) zero a d h = refl
get_or-set-other (x ∷ xs) (suc i) (suc j) a d h = get_or-set-other xs i j a d (λ e. h (omega arith))

pub get_or-beyond : {A : Type 0} (xs : List A) (i : ℕ) (d : A) → length xs ≤ i → get_or xs i d ≡ d
get_or-beyond [] i d h = refl
get_or-beyond (x ∷ xs) zero d h = ground arith
get_or-beyond (x ∷ xs) (suc i) d h = get_or-beyond xs i d (omega arith)

pub get_or-replicate : {A : Type 0} (n i : ℕ) (d : A) → get_or (replicate n d) i d ≡ d
get_or-replicate zero i d = refl
get_or-replicate (suc n) zero d = refl
get_or-replicate (suc n) (suc i) d = get_or-replicate n i d

pub get_or-set-default : {A : Type 0} (xs : List A) (i : ℕ) (d : A) → get_or (set xs i d) i d ≡ d
get_or-set-default [] i d = refl
get_or-set-default (x ∷ xs) zero d = refl
get_or-set-default (x ∷ xs) (suc i) d = get_or-set-default xs i d

-- What holds of every entry and of the value that is written holds of every entry after the write.
pub get_or-set-every :
    {A : Type 0} (P : A → Type 0) (xs : List A) (k : ℕ) (a d : A)
    → P a
    → ((i : ℕ) → P (get_or xs i d))
    → (i : ℕ) → P (get_or (set xs k a) i d)
get_or-set-every P [] k a d h all i = all i
get_or-set-every P (x ∷ xs) zero a d h all zero = h
get_or-set-every P (x ∷ xs) zero a d h all (suc i) = all (suc i)
get_or-set-every P (x ∷ xs) (suc k) a d h all zero = all 0
get_or-set-every P (x ∷ xs) (suc k) a d h all (suc i) =
    get_or-set-every P xs k a d h (λ i. all (suc i)) i
