-- ===== src/Prelude/Digits.antt =====
-- Binary digits of native numbers, and the laws of `bit_and` and `bit_or` that they give.
use Prim.Native.Nat.{
  ℕ, zero, suc, ◌+◌, ◌*◌, ◌/◌, ◌%◌, ◌≤◌, min, max, bit_and, bit_or, digits, bit_and-bitwise,
  bit_or-bitwise,
}
use mathlib.Core.Path.{◌≡◌, refl}
use native.Mathlib.Omega.{arith}

-- The digit of weight 2 ^ k.
abbrev pub bit : (k a : ℕ) → ℕ
bit zero a = a % 2
bit (suc k) a = bit k (a / 2)

bit_zero : (k : ℕ) → bit k 0 ≡ 0
bit_zero zero = refl
bit_zero (suc k) = bit_zero k

bit-le : (k a : ℕ) → bit k a ≤ 1
bit-le zero a = omega arith
bit-le (suc k) a = bit-le k (a / 2)

-- Two numbers with the same digits are the same.
ext_fuel : (n a b : ℕ) → a ≤ n → b ≤ n → ((k : ℕ) → bit k a ≡ bit k b) → a ≡ b
ext_fuel zero a b p q same = omega arith
ext_fuel (suc n) a b p q same =
    omega
      (arith, same 0, ext_fuel n (a / 2) (b / 2) (omega arith) (omega arith) (λ k. same (suc k)))

pub bit_ext : (a b : ℕ) → ((k : ℕ) → bit k a ≡ bit k b) → a ≡ b
bit_ext a b same = ext_fuel (a + b) a b (omega arith) (omega arith) same

halve : (x r : ℕ) → r ≤ 1 → (x * 2 + r) / 2 ≡ x
halve x r h = omega arith

-- The digits of what the two operations stand for, when there are enough rounds.
and_rounds : (k n a b : ℕ) → a ≤ n → bit k (digits (λ b. zero) min n a b) ≡ min (bit k a) (bit k b)
and_rounds k zero zero b h = omega (arith, bit_zero k)
and_rounds k zero (suc a) b h = absurd (omega arith)
and_rounds k (suc n) zero b h = omega (arith, bit_zero k)
and_rounds zero (suc n) (suc a) b h = omega arith
and_rounds (suc k) (suc n) (suc a) b h =
    rw
      (halve (digits (λ b. zero) min n (suc a / 2) (b / 2)) (min (suc a % 2) (b % 2)) (omega arith))
      (and_rounds k n (suc a / 2) (b / 2) (omega arith))

or_rounds : (k n a b : ℕ) → a ≤ n → bit k (digits (λ b. b) max n a b) ≡ max (bit k a) (bit k b)
or_rounds k zero zero b h = omega (arith, bit_zero k)
or_rounds k zero (suc a) b h = absurd (omega arith)
or_rounds k (suc n) zero b h = omega (arith, bit_zero k)
or_rounds zero (suc n) (suc a) b h = omega arith
or_rounds (suc k) (suc n) (suc a) b h =
    rw (halve (digits (λ b. b) max n (suc a / 2) (b / 2)) (max (suc a % 2) (b % 2)) (omega arith))
      (or_rounds k n (suc a / 2) (b / 2) (omega arith))

pub bit-bit_and : (k a b : ℕ) → bit k (bit_and a b) ≡ min (bit k a) (bit k b)
bit-bit_and k a b = rw (bit_and-bitwise a b) (and_rounds k a a b (omega arith))

pub bit-bit_or : (k a b : ℕ) → bit k (bit_or a b) ≡ max (bit k a) (bit k b)
bit-bit_or k a b = rw (bit_or-bitwise a b) (or_rounds k a a b (omega arith))

pub bit_and_assoc : (a b c : ℕ) → bit_and (bit_and a b) c ≡ bit_and a (bit_and b c)
bit_and_assoc a b c = bit_ext _ _ λ k. omega (
  arith,
  bit-bit_and k (bit_and a b) c,
  bit-bit_and k a b,
  bit-bit_and k a (bit_and b c),
  bit-bit_and k b c,
)

pub bit_and_or_distrib : (a b c : ℕ) → bit_and (bit_or a b) c ≡ bit_or (bit_and a c) (bit_and b c)
bit_and_or_distrib a b c = bit_ext _ _ λ k. omega (
  arith,
  bit-bit_and k (bit_or a b) c,
  bit-bit_or k a b,
  bit-bit_or k (bit_and a c) (bit_and b c),
  bit-bit_and k a c,
  bit-bit_and k b c,
)

pub bit_and_none : (a : ℕ) → bit_and a 0 ≡ 0
bit_and_none a = bit_ext _ _ λ k. omega (arith, bit-bit_and k a 0, bit_zero k)

pub bit_or_none : (a : ℕ) → bit_or a 0 ≡ a
bit_or_none a = bit_ext _ _ λ k. omega (arith, bit-bit_or k a 0, bit_zero k)

-- The lowest digit, and the others.
pub bit_and_halves : (a b : ℕ) → bit_and a b ≡ bit_and (a / 2) (b / 2) * 2 + min (a % 2) (b % 2)
bit_and_halves a b =
    let low = bit-bit_and 0 a b in
    let high : bit_and a b / 2 ≡ bit_and (a / 2) (b / 2) =
      bit_ext _ _ λ k. omega (arith, bit-bit_and (suc k) a b, bit-bit_and k (a / 2) (b / 2)) in
    omega (arith, low, high)

pub bit_or_halves : (a b : ℕ) → bit_or a b ≡ bit_or (a / 2) (b / 2) * 2 + max (a % 2) (b % 2)
bit_or_halves a b =
    let low = bit-bit_or 0 a b in
    let high : bit_or a b / 2 ≡ bit_or (a / 2) (b / 2) =
      bit_ext _ _ λ k. omega (arith, bit-bit_or (suc k) a b, bit-bit_or k (a / 2) (b / 2)) in
    omega (arith, low, high)
