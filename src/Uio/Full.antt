-- ===== src/Uio/Full.antt =====
-- What the loop of winsup/uio.c does when every transfer is complete.
use magiskboot_build.Prelude.{
  ℕ, zero, suc, ◌+◌, ◌-◌, ◌<◌, ltb, ℤ, pos, false, Option, none, some, List, [], ◌∷◌, length, ◌≡◌,
  ap, ◌∙◌, arith,
}
use magiskboot_build.Sys.{Sys, Ext}
use magiskboot_build.Uio.{Io, uio_loop, uio_impl, readv, writev}

-- The sum of the lengths of the entries in front of the first empty one.
abbrev pub total_before_empty : List ℕ → ℕ
total_before_empty [] = 0
total_before_empty (zero ∷ iov) = 0
total_before_empty (suc len ∷ iov) = suc len + total_before_empty iov

-- A transfer moves all the bytes that it is asked for.
abbrev pub Full : {W : Type 0} → ((entry off count : ℕ) → Ext W ℤ) → Type 0
Full {W} transfer = (entry off count : ℕ) (s : Sys W) → (transfer entry off count s).0 ≡ pos count

-- The result of a run that has ended.
abbrev pub result : {W : Type 0} → Option (ℤ × Sys W) → Option ℤ
result none = none
result (some (r, s)) = some r

module _ {W : Type 0} (transfer : (entry off count : ℕ) → Ext W ℤ) (full : Full transfer) where
  loop-Full :
      (fuel : ℕ) (iov : List ℕ) (i ret : ℕ) (s : Sys W)
      → length iov < fuel
      → result (uio_loop transfer fuel iov i 0 ret s) ≡ some (pos (ret + total_before_empty iov))
  unfolding uio_loop
  loop-Full zero iov i ret s more = absurd (omega arith)
  loop-Full (suc fuel) [] i ret s more = ap (λ (n : ℕ). some (pos n)) (omega arith)
  loop-Full (suc fuel) (zero ∷ iov) i ret s more =
      let nothing : 0 - 0 ≡ 0 = omega arith in
      rw (uio_loop, nothing, full i 0 0 s) (ap (λ (n : ℕ). some (pos n)) (omega arith))
  loop-Full (suc fuel) (suc len ∷ iov) i ret s more =
      let whole : suc len - 0 ≡ suc len = omega arith in
      let past : ltb (0 + suc len) (suc len) ≡ false = ground arith in
      let t = (transfer i 0 (suc len - 0) s).1 in
      let moved : (transfer i 0 (suc len - 0) s).0 ≡ pos (suc len) =
        full i 0 (suc len - 0) s ∙ ap pos whole in
      rw (uio_loop, moved, past)
        (loop-Full fuel iov (i + 1) (ret + suc len) t (omega (arith, more))
          ∙ ap (λ (n : ℕ). some (pos n)) (omega arith))

-- When every call of `read` and `write` moves all the bytes that it is asked for, `readv` and `writev`
-- return, within one round for each entry and one more, the sum of the lengths of the entries in front
-- of the first empty one: the transfer of no bytes is taken for the end of the file, and the entries
-- behind it are left out.
pub uio-Full :
    {W : Type 0} (io : Io W) (iov : List ℕ) (s : Sys W)
    → Full io.read
    → Full io.write
    → (result (readv io (suc (length iov)) iov s) ≡ some (pos (total_before_empty iov)))
      × (result (writev io (suc (length iov)) iov s) ≡ some (pos (total_before_empty iov)))
unfolding readv writev uio_impl
uio-Full io iov s r w = (
  loop-Full io.read r (suc (length iov)) iov 0 0 s (omega arith)
      ∙ ap (λ (n : ℕ). some (pos n)) (omega arith),
  loop-Full io.write w (suc (length iov)) iov 0 0 s (omega arith)
      ∙ ap (λ (n : ℕ). some (pos n)) (omega arith),
)
