-- ===== src/Prelude/Words.antt =====
-- The fields of a word: `a & (2^n - 1)`, and `|` of parts that share no digit.
use magiskboot_build.Prelude.Digits.{bit_and_halves, bit_or_halves, bit_and_none, bit_or_none}
use Prim.Native.Nat.{ℕ, zero, suc, ◌+◌, ◌*◌, ◌/◌, ◌%◌, ◌<◌, bit_and, bit_or}
use mathlib.Core.Path.{◌≡◌}
use native.Mathlib.Omega.{arith}

-- x * 2 ^ n
abbrev pub shift : (n x : ℕ) → ℕ
shift zero x = x
shift (suc n) x = shift n x * 2

-- 2 ^ n - 1
abbrev pub ones : ℕ → ℕ
ones zero = 0
ones (suc n) = ones n * 2 + 1

-- x / 2 ^ n
abbrev pub above : (n x : ℕ) → ℕ
above zero x = x
above (suc n) x = above n (x / 2)

half_twice : (x : ℕ) → (x * 2 / 2 ≡ x) × ((x * 2 + 1) / 2 ≡ x)
half_twice x = (omega arith, omega arith)

pub bit_or-shift : (n x y : ℕ) → y < shift n 1 → bit_or (shift n x) y ≡ shift n x + y
bit_or-shift zero x y h = let none : y ≡ 0 = omega arith in rw none (omega (arith, bit_or_none x))
bit_or-shift (suc n) x y h =
    let upper : bit_or (shift n x * 2 / 2) (y / 2) ≡ shift n x + y / 2 =
      rw (half_twice (shift n x)).0 (bit_or-shift n x (y / 2) (omega arith)) in
    omega (arith, upper, bit_or_halves (shift n x * 2) y)

pub bit_and-ones :
    (n x : ℕ) → (bit_and x (ones n) + shift n (above n x) ≡ x) × (bit_and x (ones n) < shift n 1)
bit_and-ones zero x = (omega (arith, bit_and_none x), omega (arith, bit_and_none x))
bit_and-ones (suc n) x =
    let ih = bit_and-ones n (x / 2) in
    let step : bit_and x (ones n * 2 + 1) ≡ bit_and (x / 2) (ones n) * 2 + x % 2 =
      rw (bit_and_halves x (ones n * 2 + 1), (half_twice (ones n)).1) (omega arith) in
    (omega (arith, ih.0, step), omega (arith, ih.1, step))

-- The two halves of a word of 32 bits.
pub low_half : (x : ℕ) → bit_and x 0xffff ≡ x % 65536
low_half x = omega (arith, (bit_and-ones 16 x).0, (bit_and-ones 16 x).1)

pub join_halves : (x y : ℕ) → y < 65536 → bit_or (x * 65536) y ≡ x * 65536 + y
join_halves x y h = rw (times x) (bit_or-shift 16 x y h)
  where
    times : (n : ℕ) → n * 65536 ≡ shift 16 n
    times n = omega arith
