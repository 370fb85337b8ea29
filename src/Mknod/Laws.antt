-- ===== src/Mknod/Laws.antt =====
-- Device numbers and their parts.
use magiskboot_build.Prelude.{ℕ, ◌+◌, ◌*◌, ◌/◌, ◌%◌, ◌^◌, ◌<◌, bit_and, ◌≡◌, arith}
use magiskboot_build.Prelude.Words.{low_half, join_halves}
use magiskboot_build.Mknod.{makedev, major, minor}

makedev-eq-add : (maj min : ℕ) → makedev maj min ≡ maj % 65536 * 65536 + min % 65536
unfolding makedev
makedev-eq-add maj min =
    rw (low_half min, shifted maj) (join_halves (maj % 65536) (min % 65536) (omega arith))
  where
    shifted : (n : ℕ) → n * 65536 % 2 ^ 32 ≡ n % 65536 * 65536
    shifted n = omega arith

-- For every pair of numbers: the device number that they make is a word of 32 bits, and its parts are
-- the numbers' lowest 16 bits. Every device number of 32 bits is the one made of its parts.
pub makedev-major :
    (maj min dev : ℕ)
    → dev < 2 ^ 32
    → (major (makedev maj min) ≡ maj % 65536)
      × (minor (makedev maj min) ≡ min % 65536)
      × (makedev maj min < 2 ^ 32)
      × (makedev (major dev) (minor dev) ≡ dev)
unfolding major minor
makedev-major maj min dev h = (
  omega (arith, makedev-eq-add maj min, low_half (makedev maj min / 65536)),
  omega (arith, makedev-eq-add maj min, low_half (makedev maj min)),
  omega (arith, makedev-eq-add maj min),
  omega (
    arith,
    makedev-eq-add (bit_and (dev / 65536) 0xffff) (bit_and dev 0xffff),
    low_half (dev / 65536),
    low_half dev,
  ),
)
