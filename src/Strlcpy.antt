-- ===== src/Strlcpy.antt =====
-- `strlcpy` of libbsd/str.c. A C string is the list of its bytes without the NUL; a pointer into one
-- is the list of what is left of it.
pub mod Laws
mod Tests
use magiskboot_build.Prelude.{ℕ, zero, suc, ◌+◌, ◌-◌, ◌==◌, List, [], ◌∷◌, set, if◌then◌else◌}

-- The variables of the function: `n`, what is left from `s` on, `s - src`, `d - dst`, and the
-- bytes at `dst`.
pub record Copying : Type 0 where
  pub n : ℕ
  pub rest : List ℕ
  pub s : ℕ
  pub d : ℕ
  pub dst : List ℕ

-- `do { if ((*d++ = *s++) == 0) break; } while (--n != 0);`, entered with `n` rounds left. At the
-- end of the list stands the NUL.
copy_loop : (n : ℕ) (rest : List ℕ) (s d : ℕ) (dst : List ℕ) → Copying
copy_loop zero rest s d dst = record { n = 0; rest = rest; s = s; d = d; dst = dst }
copy_loop (suc n) [] s d dst = record {
  n = suc n;
  rest = [];
  s = s + 1;
  d = d + 1;
  dst = set dst d 0;
}
copy_loop (suc n) (c ∷ rest) s d dst =
    let next = copy_loop n rest (s + 1) (d + 1) (set dst d c) in
    if c == 0
    then record { n = suc n; rest = rest; s = s + 1; d = d + 1; dst = set dst d c }
    else next

-- `while (*s++);`
scan_loop : (rest : List ℕ) (s : ℕ) → ℕ
scan_loop [] s = s + 1
scan_loop (c ∷ rest) s = let next = scan_loop rest (s + 1) in if c == 0 then s + 1 else next

-- What follows the copying loop: the bytes at `dst` and the result `s - src - 1`.
finish : (siz : ℕ) → Copying → List ℕ × ℕ
unfolding scan_loop
finish siz c =
    if c.n == 0
    then (if siz == 0 then c.dst else set c.dst c.d 0, scan_loop c.rest c.s - 1)
    else (c.dst, c.s - 1)

unfoldable pub strlcpy : (dst src : List ℕ) (siz : ℕ) → List ℕ × ℕ
unfolding copy_loop finish
strlcpy dst src siz =
    let n = siz - 1 in
    finish siz (
      if siz == 0
      then record { n = 0; rest = src; s = 0; d = 0; dst = dst }
      else if n == 0
      then record { n = 0; rest = src; s = 0; d = 0; dst = dst }
      else copy_loop n src 0 0 dst)
