-- ===== src/Sendfile.antt =====
-- `__sendfile_stub` of non-linux/sendfile_fallback.c, where `size_t` and `off_t` have 64 bits. A value
-- of either is the number of its bits.
mod Copying
pub mod Laws
pub mod Errors
mod Tests
use magiskboot_build.Prelude.{
  ℕ, zero, suc, ◌+◌, ◌-◌, ◌*◌, ◌%◌, ◌^◌, ltb, ◌==◌, ℤ, pos, negsuc, Bool, true, false, List, take,
  if◌then◌else◌,
}
use magiskboot_build.Sys.{Sys, Ext}

abbrev pub size_values : ℕ
size_values = 2 ^ 64

-- A result of `read` or `write`, converted to `size_t`.
abbrev pub as_size : ℤ → ℕ
as_size (pos n) = n % size_values
as_size (negsuc n) = size_values - 1 - n % size_values

abbrev pub sf_buf_size : ℕ
sf_buf_size = 8192

-- `read` from the one descriptor, with the bytes that it stores, and `write` to the other.
-- `write_behind` is the `write` of `count` bytes from `offset` on in `sf_buf` that goes beyond the
-- buffer: it may fail, or take what stands behind it.
pub record Files (W : Type 0) : Type 0 where
  pub read : (count : ℕ) → Ext W (ℤ × List ℕ)
  pub write : (bytes : List ℕ) → Ext W ℤ
  pub write_behind : (offset count : ℕ) → Ext W ℤ

-- How a run ends: with a result; by a failed assertion or a `read` that is asked for more bytes
-- than the buffer has; or the fuel is used up.
pub data Run (W A : Type 0) : Type 0 where
  ended : A → Sys W → Run W A
  stuck : Run W A
  unfinished : Run W A

unfoldable pub and_then : {W A B : Type 0} → Run W A → (A → Sys W → Run W B) → Run W B
and_then (Run.ended a s) k = k a s
and_then Run.stuck k = Run.stuck
and_then Run.unfinished k = Run.unfinished

-- `MIN(n_left, sf_buf_size)`, a signed comparison.
unfoldable pub chunk : (n_left : ℕ) → ℕ
chunk n_left =
    if ltb n_left (2 ^ 63) then (if ltb n_left sf_buf_size then n_left else sf_buf_size) else n_left

module _ {W : Type 0} (files : Files W) (ndebug : Bool) where
  -- `assert(n != 0)`
  unfoldable pub assert_some : {A : Type 0} → (n : ℕ) → Run W A → Run W A
  assert_some n k = if ndebug then k else if n == 0 then Run.stuck else k

  -- `write` of the first `n_read` bytes of the buffer.
  unfoldable pub write_buffer : (bytes : List ℕ) (n_read : ℕ) → Ext W ℤ
  write_buffer bytes n_read =
      if ltb sf_buf_size n_read then files.write_behind 0 n_read else files.write bytes

  -- The inner loop, and the value of `n_write` after it; `bytes` are the first `n_read` of the
  -- buffer. `(&sf_buf) + n_write` is `n_write` whole buffers behind the start. The tests of
  -- `n_write_new < 0` are never true.
  unfoldable pub write_rest : (fuel : ℕ) (bytes : List ℕ) (n_read n_write : ℕ) → Sys W → Run W ℕ
  write_rest zero bytes n_read n_write s = Run.unfinished
  write_rest (suc fuel) bytes n_read n_write s =
      let (r, t) =
        (if n_write == 0
            then write_buffer bytes n_read
            else files.write_behind (n_write * sf_buf_size) (n_read - n_write))
          s in
      let rest = write_rest fuel bytes n_read ((n_write + as_size r) % size_values) t in
      if ltb n_write n_read then assert_some (as_size r) rest else Run.ended n_write s

  -- A round of the outer loop up to `n_left -= n_write`, with the bytes that were read. The test of
  -- `n_write < 0` is never true.
  unfoldable pub write_chunk : (fuel : ℕ) (bytes : List ℕ) (n_read : ℕ) → Sys W → Run W ℕ
  write_chunk fuel bytes n_read s =
      let (r, t) = write_buffer bytes n_read s in
      assert_some (as_size r) (write_rest fuel bytes n_read (as_size r) t)

  -- The outer loop. The test of `n_read < 0` is never true.
  unfoldable pub sendfile_loop : (fuel n_left : ℕ) → Sys W → Run W (Unit {0})
  sendfile_loop zero n_left s = Run.unfinished
  sendfile_loop (suc fuel) n_left s =
      let ((r, data'), t) = files.read (chunk n_left) s in
      let n_read = as_size r in
      let next =
        and_then (write_chunk fuel (take n_read data') n_read t)
          λ n_write u. sendfile_loop fuel ((n_left + (size_values - n_write)) % size_values) u in
      if n_left == 0
      then Run.ended tt s
      else if ltb sf_buf_size (chunk n_left)
      then Run.stuck
      else if n_read == 0
      then Run.ended tt t
      else next

  unfoldable pub sendfile_stub : (fuel count : ℕ) → Sys W → Run W (Unit {0})
  sendfile_stub fuel count = sendfile_loop fuel (count % size_values)
