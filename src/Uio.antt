-- ===== src/Uio.antt =====
-- `__uio_impl`, `readv` and `writev` of winsup/uio.c. A vector is the list of its entries' lengths,
-- and a transfer is told the entry, the offset in it and the number of bytes.
pub mod Laws
pub mod Full
mod Tests
use magiskboot_build.Prelude.{
  ℕ, zero, suc, ◌+◌, ◌-◌, ◌==◌, ltb, ℤ, pos, negsuc, minus_one, Bool, true, false, Option, none,
  some, List, [], ◌∷◌, if◌then◌else◌,
}
use magiskboot_build.Errno.{is_eintr}
use magiskboot_build.Sys.{Sys, Ext}

-- `read` and `write` of the C runtime, for one descriptor.
pub record Io (W : Type 0) : Type 0 where
  pub read : (entry off count : ℕ) → Ext W ℤ
  pub write : (entry off count : ℕ) → Ext W ℤ

module _ {W : Type 0} (transfer : (entry off count : ℕ) → Ext W ℤ) where
  -- The `while` loop at entry `i`, with the entries that are left; `none` for fuel that has run out.
  unfoldable pub uio_loop : (fuel : ℕ) (iov : List ℕ) (i off ret : ℕ) → Sys W → Option (ℤ × Sys W)
  uio_loop zero iov i off ret s = none
  uio_loop (suc fuel) [] i off ret s = some (pos ret, s)
  uio_loop (suc fuel) (len ∷ iov) i off ret s =
      let t = (transfer i off (len - off) s).1 in
      elim (transfer i off (len - off) s).0 [
        | pos zero ↦ some (pos ret, t)
        | pos (suc k) ↦ elim (ltb (off + suc k) len) [
          | true ↦ uio_loop fuel (len ∷ iov) i (off + suc k) (ret + suc k) t
          | false ↦ uio_loop fuel iov (i + 1) 0 (ret + suc k) t
        ]
        | negsuc e ↦ elim (is_eintr t.errno) [
          | true ↦ uio_loop fuel (len ∷ iov) i off ret t
          | false ↦ some (if ret == 0 then minus_one else pos ret, t)
        ]
      ]

module _ {W : Type 0} (io : Io W) where
  unfoldable pub uio_impl : (fuel : ℕ) (iov : List ℕ) (do_write : Bool) → Sys W → Option (ℤ × Sys W)
  uio_impl fuel iov true = uio_loop io.write fuel iov 0 0 0
  uio_impl fuel iov false = uio_loop io.read fuel iov 0 0 0

  unfoldable pub readv : (fuel : ℕ) (iov : List ℕ) → Sys W → Option (ℤ × Sys W)
  readv fuel iov = uio_impl fuel iov false

  unfoldable pub writev : (fuel : ℕ) (iov : List ℕ) → Sys W → Option (ℤ × Sys W)
  writev fuel iov = uio_impl fuel iov true
