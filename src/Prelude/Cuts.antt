-- ===== src/Prelude/Cuts.antt =====
-- Cutting a list at two places.
use magiskboot_build.Prelude.Lists.{take, drop, length}
use Prim.Native.Nat.{ℕ, zero, suc, ◌-◌, ◌≤◌}
use mathlib.Core.Path.{◌≡◌, refl, ap}
use mathlib.Core.List.{List, [], ◌∷◌, ◌++◌}
use native.Mathlib.Omega.{arith}

module _ {A : Type 0} where
  pub length-zero : (xs : List A) → length xs ≡ 0 → xs ≡ []
  length-zero [] h = refl
  length-zero (x ∷ xs) h = absurd (omega arith)

  pub take_nil : (k : ℕ) → take {A = A} k [] ≡ []
  take_nil zero = refl
  take_nil (suc k) = refl

  pub drop_nil : (k : ℕ) → drop {A = A} k [] ≡ []
  drop_nil zero = refl
  drop_nil (suc k) = refl

  pub take-append-drop :
      (n m : ℕ) (xs : List A) → n ≤ m → take n xs ++ take (m - n) (drop n xs) ≡ take m xs
  take-append-drop zero m xs h = ap (λ (k : ℕ). take k xs) (omega arith)
  take-append-drop (suc n) zero xs h = absurd (omega arith)
  take-append-drop (suc n) (suc m) [] h = take_nil (suc m - suc n)
  take-append-drop (suc n) (suc m) (x ∷ xs) h =
      let less : suc m - suc n ≡ m - n = omega arith in
      rw less (ap (λ (l : List A). x ∷ l) (take-append-drop n m xs (omega arith)))

  pub drop-drop : (n m : ℕ) (xs : List A) → n ≤ m → drop (m - n) (drop n xs) ≡ drop m xs
  drop-drop zero m xs h = ap (λ (k : ℕ). drop k xs) (omega arith)
  drop-drop (suc n) zero xs h = absurd (omega arith)
  drop-drop (suc n) (suc m) [] h = drop_nil (suc m - suc n)
  drop-drop (suc n) (suc m) (x ∷ xs) h =
      let less : suc m - suc n ≡ m - n = omega arith in rw less (drop-drop n m xs (omega arith))

  pub take-take : (n : ℕ) (xs : List A) → take n (take n xs) ≡ take n xs
  take-take zero xs = refl
  take-take (suc n) [] = refl
  take-take (suc n) (x ∷ xs) = ap (λ (l : List A). x ∷ l) (take-take n xs)
