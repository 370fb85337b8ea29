-- ===== src/Prelude/Bits.antt =====
-- A mask of one bit gives all of itself or nothing.
use Prim.Native.Nat.{ℕ, zero, suc, ◌*◌, ◌/◌, ◌%◌, min, bit_and, digits, bit_and-bitwise}
use mathlib.Core.Path.{◌≡◌, refl}
use mathlib.Core.Logic.{◌⊎◌, inl, inr}
use native.Mathlib.Omega.{arith}

-- What a mask leaves of the digits of `a`, of which at most `count` are read.
abbrev left_of : (mask count a : ℕ) → ℕ
left_of mask count a = digits (λ b. zero) min count a mask

abbrev AllOrNone : (mask r : ℕ) → Type 0
AllOrNone mask r = (r ≡ 0) ⊎ (r ≡ mask)

left_of-none : (count a : ℕ) → left_of 0 count a ≡ 0
left_of-none zero a = refl
left_of-none (suc count) zero = refl
left_of-none (suc count) (suc a) = omega (arith, left_of-none count (suc a / 2))

parity : (n : ℕ) → (n % 2 ≡ 0) ⊎ (n % 2 ≡ 1)
parity n = ground arith

left_of-lowest : (count a : ℕ) → AllOrNone 1 (left_of 1 count a)
left_of-lowest zero a = inl refl
left_of-lowest (suc count) zero = inl refl
left_of-lowest (suc count) (suc a) = elim (parity (suc a)) [
  | inl even ↦ inl (omega (arith, left_of-none count (suc a / 2)))
  | inr odd ↦ inr (omega (arith, left_of-none count (suc a / 2)))
]

left_of-twice :
    (mask : ℕ)
    → ((count a : ℕ) → AllOrNone mask (left_of mask count a))
    → (count a : ℕ) → AllOrNone (mask * 2) (left_of (mask * 2) count a)
left_of-twice mask h zero a = inl refl
left_of-twice mask h (suc count) zero = inl refl
left_of-twice mask h (suc count) (suc a) =
    rw (half mask)
      (elim (h count (suc a / 2)) [ inl none ↦ inl (omega arith) | inr all ↦ inr (omega arith) ])
  where
    half : (n : ℕ) → n * 2 / 2 ≡ n
    half n = omega arith

pub bit_and_one : (a : ℕ) → (bit_and a 1 ≡ 0) ⊎ (bit_and a 1 ≡ 1)
bit_and_one a = rw (bit_and-bitwise a 1) (left_of-lowest a a)

-- `x & 8`, where 8 is the value of `O_APPEND`.
pub bit_and_eight : (a : ℕ) → (bit_and a 8 ≡ 0) ⊎ (bit_and a 8 ≡ 8)
bit_and_eight a =
    rw (bit_and-bitwise a 8)
      (left_of-twice 4 (left_of-twice 2 (left_of-twice 1 left_of-lowest)) a a)
