-- ===== src/Prelude/Int.antt =====
-- Signed results of C functions. `negsuc n` is -(n + 1).
use Prim.Native.Nat.{ℕ}
use mathlib.Core.Bool.{Bool, true, false}
use mathlib.Core.Path.{◌≡◌}
use mathlib.Core.Logic.{◌↔◌}
use native.Mathlib.Omega.{arith}
use magiskboot_build.Prelude.Tests.{◌==◌}

pub data ℤ : Type 0 where
  pos : ℕ → ℤ
  negsuc : ℕ → ℤ

abbrev pub minus_one : ℤ
minus_one = negsuc 0

-- `x < 0`
abbrev pub is_neg : ℤ → Bool
is_neg (pos n) = false
is_neg (negsuc n) = true

abbrev pub is_zero : ℤ → Bool
is_zero (pos ℕ.zero) = true
is_zero (pos (ℕ.suc n)) = false
is_zero (negsuc n) = false

abbrev pub eqb : ℤ → ℤ → Bool
eqb (pos m) (pos n) = m == n
eqb (pos m) (negsuc n) = false
eqb (negsuc m) (pos n) = false
eqb (negsuc m) (negsuc n) = m == n

pub eqb_iff : (a b : ℤ) → (eqb a b ≡ true) ↔ (a ≡ b)
eqb_iff (pos m) (pos n) = ground arith
eqb_iff (pos m) (negsuc n) = ground arith
eqb_iff (negsuc m) (pos n) = ground arith
eqb_iff (negsuc m) (negsuc n) = ground arith
