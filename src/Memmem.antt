-- ===== src/Memmem.antt =====
-- `memmem` of winsup/str.c. Memory is the list of its bytes, and a pointer into the haystack the
-- list of what is left of it.
mod Find
pub mod Laws
mod Tests
use magiskboot_build.Prelude.{
  ℕ, zero, suc, ◌+◌, ◌-◌, ◌==◌, leb, ltb, ◌||◌, true, false, Option, none, some, List, [], ◌∷◌,
  length, starts_with, if◌then◌else◌,
}

-- `memchr(cptr, c, n)`: how far the first `c` among the first `n` bytes is, and what starts there.
memchr : (cptr : List ℕ) (c n : ℕ) → Option (ℕ × List ℕ)
memchr cptr c zero = none
memchr [] c (suc n) = none
memchr (x ∷ cptr) c (suc n) =
    let later = memchr cptr c n in
    if x == c
    then some (0, x ∷ cptr)
    else elim later [ none ↦ none | some (k, tptr) ↦ some (suc k, tptr) ]

-- The bytes behind the first one.
abbrev behind : List ℕ → List ℕ
behind [] = []
behind (x ∷ xs) = xs

abbrev head_or : List ℕ → ℕ
head_or [] = 0
head_or (x ∷ xs) = x

-- The `while` loop, `none` for fuel that has run out. Its result is the offset of the match, or
-- `none` for a null pointer; `cptr` is `csrc + ndx`.
search_loop : (fuel haystacklen ndx : ℕ) (cptr needle : List ℕ) → Option (Option ℕ)
search_loop zero haystacklen ndx cptr needle = none
search_loop (suc fuel) haystacklen ndx cptr needle =
    if leb ndx haystacklen
    then if ltb (haystacklen - ndx) (length needle)
      then some none
      else elim (memchr cptr (head_or needle) (haystacklen - ndx - length needle + 1)) [
        | none ↦ some none
        | some (k, tptr) ↦ elim (starts_with needle tptr) [
          | true ↦ some (some (ndx + k))
          | false ↦ search_loop fuel haystacklen (ndx + k + 1) (behind tptr) needle
        ]
      ]
    else some none

-- `none` for a null pointer, before the result as above.
unfoldable pub memmem : (haystack needle : List ℕ) → Option (Option ℕ)
unfolding search_loop memchr
memmem haystack needle =
    if (length haystack == 0) || (length needle == 0)
    then some none
    else search_loop (suc (length haystack)) (length haystack) 0 haystack needle
