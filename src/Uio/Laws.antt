-- ===== src/Uio/Laws.antt =====
-- How many bytes the loop of winsup/uio.c moves, and that it ends.
use magiskboot_build.Prelude.{
  ℕ, zero, suc, ◌+◌, ◌-◌, ◌≤◌, ◌<◌, ◌==◌, ltb, ltb→lt, ℤ, pos, negsuc, minus_one, is_neg, true,
  false, Bool-cases, Option, none, some, is_some, List, [], ◌∷◌, length, ◌≡◌, ◌⊎◌, inl, inr, refl,
  arith, if◌then◌else◌,
}
use magiskboot_build.Errno.{is_eintr}
use magiskboot_build.Sys.{Sys, Ext}
use magiskboot_build.Uio.{Io, uio_loop, uio_impl, readv, writev}

-- The bytes that a result of `read` or `write` counts.
abbrev pub bytes : ℤ → ℕ
bytes (pos n) = n
bytes (negsuc n) = 0

abbrev pub total : List ℕ → ℕ
total [] = 0
total (len ∷ iov) = len + total iov

-- A transfer counts the bytes that it moves, and moves no more than it is asked for.
pub record Counted {W : Type 0} (moved : W → ℕ) (transfer : (entry off count : ℕ) → Ext W ℤ)
    : Type 0 where
  pub counts :
      (i off n : ℕ) (s : Sys W)
      → moved (transfer i off n s).1.world ≡ moved s.world + bytes (transfer i off n s).0
  pub at_most : (i off n : ℕ) (s : Sys W) → bytes (transfer i off n s).0 ≤ n

-- The result -1 when nothing was moved, or else the number of bytes moved, which is at most `limit`.
pub Result : (before after limit : ℕ) → ℤ → Type 0
Result before after limit r =
    ((r ≡ minus_one) × (after ≡ before))
    ⊎ ((n : ℕ) × (r ≡ pos n) × (after ≡ before + n) × (n ≤ limit))

-- What holds of the end of a run, if the fuel was enough for one.
abbrev pub Ends : {W : Type 0} (moved : W → ℕ) (before limit : ℕ) → Option (ℤ × Sys W) → Type 0
Ends moved before limit none = Unit
Ends moved before limit (some (r, t)) = Result before (moved t.world) limit r

-- What is left of the first entry and of those behind it.
abbrev left_over : (iov : List ℕ) (off : ℕ) → ℕ
left_over iov off = total iov - off

module _ {W : Type 0} (moved : W → ℕ) (transfer : (entry off count : ℕ) → Ext W ℤ)
    (laws : Counted moved transfer) where
  loop-Ends :
      (fuel : ℕ) (iov : List ℕ) (i off ret before : ℕ) (s : Sys W)
      → moved s.world ≡ before + ret
      → Ends moved before (ret + left_over iov off) (uio_loop transfer fuel iov i off ret s)
  unfolding uio_loop Result
  loop-Ends zero iov i off ret before s h = tt
  loop-Ends (suc fuel) [] i off ret before s h = inr (ret, refl, h, omega arith)
  loop-Ends (suc fuel) (len ∷ iov) i off ret before s h =
      round (λ l j k r t e. loop-Ends fuel l j k r before t e) (transfer i off (len - off) s)
        (laws.counts i off (len - off) s) (laws.at_most i off (len - off) s)
    where
      same_entry :
          (k : ℕ)
          → off + suc k < len
          → ret + (len + total iov - off) ≡ ret + suc k + (len + total iov - (off + suc k))
      same_entry k part = omega arith

      next_entry :
          (k : ℕ)
          → suc k ≤ len - off
          → ltb (off + suc k) len ≡ false
          → ret + (len + total iov - off) ≡ ret + suc k + (total iov - 0)
      next_entry k m full = ground arith

      nothing : (after : ℕ) → (ret == 0) ≡ true → after ≡ before + ret → after ≡ before
      nothing after zero_ret e = ground arith

      round :
          ((l : List ℕ) (j k r : ℕ) (t : Sys W)
            → moved t.world ≡ before + r
            → Ends moved before (r + left_over l k) (uio_loop transfer fuel l j k r t))
          → (o : ℤ × Sys W) → moved o.1.world ≡ moved s.world + bytes o.0
          → bytes o.0 ≤ len - off
          → Ends moved before (ret + (len + total iov - off)) (elim o.0 [
            | pos zero ↦ some (pos ret, o.1)
            | pos (suc k) ↦ elim (ltb (off + suc k) len) [
              | true ↦ uio_loop transfer fuel (len ∷ iov) i (off + suc k) (ret + suc k) o.1
              | false ↦ uio_loop transfer fuel iov (i + 1) 0 (ret + suc k) o.1
            ]
            | negsuc e ↦ elim (is_eintr o.1.errno) [
              | true ↦ uio_loop transfer fuel (len ∷ iov) i off ret o.1
              | false ↦ some (if ret == 0 then minus_one else pos ret, o.1)
            ]
          ])
      round ih (pos zero, t) c m = inr (ret, refl, omega arith, omega arith)
      round ih (pos (suc k), t) c m = elim (Bool-cases (ltb (off + suc k) len)) [
        | inl part ↦
            rw (part, same_entry k (ltb→lt _ len part))
              (ih (len ∷ iov) i (off + suc k) (ret + suc k) t (omega arith))
        | inr full ↦ rw (full, next_entry k m full) (ih iov (i + 1) 0 (ret + suc k) t (omega arith))
      ]
      round ih (negsuc e, t) c m = elim (Bool-cases (is_eintr t.errno)) [
        | inl again ↦ rw again (ih (len ∷ iov) i off ret t (omega arith))
        | inr other ↦ elim (Bool-cases (ret == 0)) [
          | inl zero_ret ↦
              rw (other, zero_ret) (inl (refl, nothing (moved t.world) zero_ret (omega arith)))
          | inr part ↦ rw (other, part) (inr (ret, refl, omega arith, omega arith))
        ]
      ]

  loop-returns :
      ((i off n : ℕ) (s : Sys W)
        → is_neg (transfer i off n s).0 ≡ true
        → is_eintr (transfer i off n s).1.errno ≡ false)
      → (fuel : ℕ) (iov : List ℕ) (i off ret : ℕ) (s : Sys W)
      → length iov + left_over iov off < fuel
      → is_some (uio_loop transfer fuel iov i off ret s) ≡ true
  unfolding uio_loop
  loop-returns quiet zero iov i off ret s low = absurd (omega arith)
  loop-returns quiet (suc fuel) [] i off ret s low = refl
  loop-returns quiet (suc fuel) (len ∷ iov) i off ret s low =
      round (λ l j k r t e. loop-returns quiet fuel l j k r t e) (transfer i off (len - off) s)
        (quiet i off (len - off) s) (laws.at_most i off (len - off) s)
    where
      fewer : (k : ℕ) → suc k ≤ len - off → length iov + (total iov - 0) < fuel
      fewer k m = omega arith

      round :
          ((l : List ℕ) (j k r : ℕ) (t : Sys W)
            → length l + left_over l k < fuel
            → is_some (uio_loop transfer fuel l j k r t) ≡ true)
          → (o : ℤ × Sys W) → (is_neg o.0 ≡ true → is_eintr o.1.errno ≡ false)
          → bytes o.0 ≤ len - off
          → is_some {A = ℤ × Sys W} (elim o.0 [
            | pos zero ↦ some (pos ret, o.1)
            | pos (suc k) ↦ elim (ltb (off + suc k) len) [
              | true ↦ uio_loop transfer fuel (len ∷ iov) i (off + suc k) (ret + suc k) o.1
              | false ↦ uio_loop transfer fuel iov (i + 1) 0 (ret + suc k) o.1
            ]
            | negsuc e ↦ elim (is_eintr o.1.errno) [
              | true ↦ uio_loop transfer fuel (len ∷ iov) i off ret o.1
              | false ↦ some (if ret == 0 then minus_one else pos ret, o.1)
            ]
          ])
            ≡ true
      round ih (pos zero, t) c m = refl
      round ih (pos (suc k), t) c m = elim (Bool-cases (ltb (off + suc k) len)) [
        | inl part ↦
            rw part
              (ih (len ∷ iov) i (off + suc k) (ret + suc k) t (omega (arith, ltb→lt _ len part)))
        | inr full ↦ rw full (ih iov (i + 1) 0 (ret + suc k) t (fewer k m))
      ]
      round ih (negsuc e, t) c m = rw (c refl) refl

module _ {W : Type 0} (moved : W → ℕ) (io : Io W) (iov : List ℕ) (s : Sys W) where
  -- When `read` and `write` count the bytes that they move and move no more than they are asked for:
  -- a result of `readv` or `writev`, after any interruptions, is the number of bytes moved, which is
  -- at most the sum of the entries' lengths, or -1, and then no byte was moved.
  pub uio-Result :
      Counted moved io.read
      → Counted moved io.write
      → (fuel : ℕ)
      → Ends moved (moved s.world) (total iov) (readv io fuel iov s)
        × Ends moved (moved s.world) (total iov) (writev io fuel iov s)
  unfolding readv writev uio_impl
  uio-Result r w fuel = (
    rw (whole (total iov))
        (loop-Ends moved io.read r fuel iov 0 0 0 (moved s.world) s (omega arith)),
    rw (whole (total iov))
        (loop-Ends moved io.write w fuel iov 0 0 0 (moved s.world) s (omega arith)),
  )
    where
      whole : (n : ℕ) → n ≡ 0 + (n - 0)
      whole n = omega arith

  -- When `read` and `write` count the bytes that they move and move no more than they are asked for,
  -- and no call of them that fails leaves EINTR in `errno`: `readv` and `writev` return within one
  -- round for each entry, one for each byte and one more.
  pub uio-returns :
      Counted moved io.read
      → Counted moved io.write
      → ((i off n : ℕ) (t : Sys W)
          → is_neg (io.read i off n t).0 ≡ true
          → is_eintr (io.read i off n t).1.errno ≡ false)
      → ((i off n : ℕ) (t : Sys W)
          → is_neg (io.write i off n t).0 ≡ true
          → is_eintr (io.write i off n t).1.errno ≡ false)
      → (is_some (readv io (suc (length iov + total iov)) iov s) ≡ true)
        × (is_some (writev io (suc (length iov + total iov)) iov s) ≡ true)
  unfolding readv writev uio_impl
  uio-returns r w quiet_read quiet_write = (
    loop-returns moved io.read r quiet_read _ iov 0 0 0 s (omega arith),
    loop-returns moved io.write w quiet_write _ iov 0 0 0 s (omega arith),
  )
