-- ===== src/Strlcpy/Laws.antt =====
-- What `strlcpy` of libbsd/str.c promises in its comment.
use magiskboot_build.Prelude.{
  ℕ, zero, suc, ◌+◌, ◌-◌, ◌≤◌, ◌<◌, min, ◌==◌, false, List, [], ◌∷◌, ◌++◌, ◌≡◌, refl, ap, sym, ◌∙◌,
  arith, set, take, drop, length, length-append, contains, if◌then◌else◌,
}
use mathlib.Core.List.{append_assoc}
use magiskboot_build.Strlcpy.{copy_loop, scan_loop, finish, strlcpy}

set-append :
    (pre : List ℕ) (x : ℕ) (post : List ℕ) (v : ℕ)
    → set (pre ++ (x ∷ post)) (length pre) v ≡ pre ++ (v ∷ post)
set-append [] x post v = refl
set-append (y ∷ pre) x post v = ap (λ (l : List ℕ). y ∷ l) (set-append pre x post v)

scan_loop-length :
    (rest : List ℕ) (s : ℕ) → contains 0 rest ≡ false → scan_loop rest s ≡ s + length rest + 1
unfolding scan_loop
scan_loop-length [] s h = omega arith
scan_loop-length (c ∷ rest) s h = ground (arith, scan_loop-length rest (s + 1))

-- What the function leaves at `dst`, from a position in the middle of the copy.
abbrev pasted : (n : ℕ) (rest post : List ℕ) → List ℕ
pasted n rest post = take n rest ++ (0 ∷ drop (suc (min n (length rest))) post)

copy_loop-finish :
    (n siz : ℕ) (rest pre post : List ℕ) (s : ℕ)
    → (siz == 0) ≡ false
    → n < length post
    → contains 0 rest ≡ false
    → finish siz (copy_loop n rest s (length pre) (pre ++ post))
      ≡ (pre ++ pasted n rest post, s + length rest)
unfolding copy_loop finish
copy_loop-finish n siz rest pre [] s z fits h = absurd (omega arith)
copy_loop-finish zero siz rest pre (x ∷ post) s z fits h =
    let none_left : min 0 (length rest) ≡ 0 = omega arith in
    rw (z, set-append pre x post 0, scan_loop-length rest s h, none_left)
      (ap (λ (k : ℕ). (pre ++ (0 ∷ post), k)) (omega arith))
copy_loop-finish (suc n) siz [] pre (x ∷ post) s z fits h =
    let none_left : min (suc n) 0 ≡ 0 = omega arith in
    let rounds_left : (suc n == 0) ≡ false = ground arith in
    rw (rounds_left, set-append pre x post 0, none_left)
      (ap (λ (k : ℕ). (pre ++ (0 ∷ post), k)) (omega arith))
copy_loop-finish (suc n) siz (c ∷ rest) pre (x ∷ post) s z fits h =
    let other : (c == 0) ≡ false = ground arith in
    let len : length pre + 1 ≡ length (pre ++ (c ∷ [])) =
      omega (arith, length-append pre (c ∷ [])) in
    let step : pre ++ (c ∷ post) ≡ (pre ++ (c ∷ [])) ++ post =
      sym (append_assoc pre (c ∷ []) post) in
    let one_more : min (suc n) (suc (length rest)) ≡ suc (min n (length rest)) = omega arith in
    let ih =
      copy_loop-finish n siz rest (pre ++ (c ∷ [])) post (s + 1) z (omega arith) (ground arith) in
    rw (other, set-append pre x post c, len, step, one_more)
      (ih
        ∙ rw (append_assoc pre (c ∷ []) (pasted n rest post))
            (ap (λ (k : ℕ). (pre ++ (c ∷ pasted n rest post), k)) (omega arith)))

-- For a string and a destination of at least `siz` bytes: the result is the length of the string,
-- whatever `siz` is; with `siz` 0 nothing is written; otherwise the destination begins with the
-- first `siz - 1` bytes of the string (all of it, if it is shorter) and a NUL, and keeps its other
-- bytes.
pub strlcpy_lem :
    (dst src : List ℕ) (siz : ℕ)
    → siz ≤ length dst
    → contains 0 src ≡ false
    → strlcpy dst src siz ≡ (
      if siz == 0
          then dst
          else take (siz - 1) src ++ (0 ∷ drop (suc (min (siz - 1) (length src))) dst),
      length src,
    )
unfolding strlcpy
strlcpy_lem dst src zero fits h =
    rw (scan_loop-length src 0 h) (ap (λ (k : ℕ). (dst, k)) (omega arith))
strlcpy_lem dst src (suc zero) fits h =
    copy_loop-finish 0 1 src [] dst 0 refl fits h
    ∙ ap (λ (k : ℕ). ([] ++ pasted 0 src dst, k)) (omega arith)
strlcpy_lem dst src (suc (suc m)) fits h =
    let down : suc (suc m) - 1 ≡ suc m = omega arith in
    let some_left : (suc m == 0) ≡ false = ground arith in
    let given : (suc (suc m) == 0) ≡ false = ground arith in
    let copied = copy_loop-finish (suc m) (suc (suc m)) src [] dst 0 given fits h in
    rw (given, down, some_left)
      ((rw given at copied) ∙ ap (λ (k : ℕ). (pasted (suc m) src dst, k)) (omega arith))
