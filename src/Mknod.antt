-- ===== src/Mknod.antt =====
-- winsup/mknod_stub.c, and the device numbers of include/winsup/mknod_compat.h. An `int` and a
-- `dev_t` are the number of their 32 bits.
pub mod Laws
mod Tests
use magiskboot_build.Prelude.{ℕ, ◌*◌, ◌/◌, ◌%◌, ◌^◌, ℤ, is_zero, bit_and, bit_or, if◌then◌else◌}
use magiskboot_build.Errno.{eexist, enotsup}
use magiskboot_build.Sys.{M}
use magiskboot_build.Win.Api.{Api, Str}
use magiskboot_build.Win.Flags.{r_ok}
use magiskboot_build.Win.Proc.{Proc, call, fail_with, ◌>>=◌}

unfoldable pub makedev : (maj min : ℕ) → ℕ
makedev maj min = bit_or (maj * 65536 % 2 ^ 32) (bit_and min 0xffff)

unfoldable pub major : (dev : ℕ) → ℕ
major dev = bit_and (dev / 65536) 0xffff

unfoldable pub minor : (dev : ℕ) → ℕ
minor dev = bit_and dev 0xffff

unfoldable pub mknod : {W : Type 0} → Api W → Str → (mode dev : ℕ) → M (Proc W) ℤ
mknod api path mode dev = do
  found ← call (api.access path r_ok)
  if is_zero found then fail_with eexist else fail_with enotsup
