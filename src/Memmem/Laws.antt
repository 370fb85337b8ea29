-- ===== src/Memmem/Laws.antt =====
-- `memmem` of winsup/str.c finds the first occurrence.
use magiskboot_build.Prelude.{
  ℕ, zero, suc, ◌+◌, ◌-◌, ◌==◌, ◌<◌, ltb, leb, true, false, Option, none, some, List, [], ◌∷◌, ◌≡◌,
  ◌≢◌, refl, ap, sym, ◌∙◌, arith, length, starts_with, Bool-cases, inl, inr, ltb→lt,
}
use magiskboot_build.Memmem.Find.{
  find, IsFirst, find-none, find_miss, find-behind, find-here, find-IsFirstFrom, from_zero,
}
use magiskboot_build.Memmem.{memchr, behind, search_loop, memmem}

abbrev from_match : (i : ℕ) (needle : List ℕ) → Option (ℕ × List ℕ) → Option ℕ
from_match i needle none = none
from_match i needle (some (k, tptr)) = find (i + k) tptr needle

abbrev next_match : Option (ℕ × List ℕ) → Option (ℕ × List ℕ)
next_match found = elim found [ none ↦ none | some (k, tptr) ↦ some (suc k, tptr) ]

from-next_match :
    (i : ℕ) (needle : List ℕ) (found : Option (ℕ × List ℕ))
    → from_match i needle (next_match found) ≡ from_match (suc i) needle found
from-next_match i needle none = refl
from-next_match i needle (some (k, tptr)) = let e : i + suc k ≡ suc i + k = omega arith in rw e

-- No occurrence is passed over by going to the next byte that equals the first of the needle, if
-- what lies behind the `n` bytes searched is too short for the needle.
find-memchr :
    (i : ℕ) (l : List ℕ) (c : ℕ) (cs : List ℕ) (n : ℕ)
    → length l < n + suc (length cs)
    → find i l (c ∷ cs) ≡ from_match i (c ∷ cs) (memchr l c n)
unfolding memchr
find-memchr i l c cs zero h = find-none i l (c ∷ cs) (omega arith)
find-memchr i [] c cs (suc n) h = find-none i [] (c ∷ cs) (omega arith)
find-memchr i (x ∷ l) c cs (suc n) h = elim (Bool-cases (x == c)) [
  | inl e ↦ let here : i + 0 ≡ i = omega arith in rw (e, here)
  | inr e ↦
      let miss : (c == x) ≡ false = ground arith in
      rw e (
        find_miss i x l c cs miss
        ∙ find-memchr (suc i) l c cs n (omega arith)
        ∙ sym (from-next_match i (c ∷ cs) (memchr l c n)))
]

abbrev Inside : (l : List ℕ) → Option (ℕ × List ℕ) → Type 0
Inside l none = Unit
Inside l (some (k, tptr)) = (k + length tptr ≡ length l) × (0 < length tptr)

Inside-next :
    (x : ℕ) (l : List ℕ) (found : Option (ℕ × List ℕ))
    → Inside l found
    → Inside (x ∷ l) (next_match found)
Inside-next x l none h = tt
Inside-next x l (some (k, tptr)) h = (omega arith, h.1)

memchr-Inside : (l : List ℕ) (c n : ℕ) → Inside l (memchr l c n)
unfolding memchr
memchr-Inside l c zero = tt
memchr-Inside [] c (suc n) = tt
memchr-Inside (x ∷ l) c (suc n) = elim (Bool-cases (x == c)) [
  | inl e ↦ rw e (omega arith, omega arith)
  | inr e ↦ rw e (Inside-next x l (memchr l c n) (memchr-Inside l c n))
]

length-behind : (l : List ℕ) → 0 < length l → suc (length (behind l)) ≡ length l
length-behind [] h = absurd (omega arith)
length-behind (x ∷ l) h = refl

search_loop-find :
    (fuel hl ndx : ℕ) (cptr : List ℕ) (c : ℕ) (cs : List ℕ)
    → length cptr < fuel
    → ndx + length cptr ≡ hl
    → search_loop fuel hl ndx cptr (c ∷ cs) ≡ some (find ndx cptr (c ∷ cs))
unfolding search_loop
search_loop-find zero hl ndx cptr c cs h e = absurd (omega arith)
search_loop-find (suc fuel) hl ndx cptr c cs h e =
    let inside : leb ndx hl ≡ true = ground arith in
    let left : hl - ndx ≡ length cptr = omega arith in
    elim (Bool-cases (ltb (length cptr) (suc (length cs)))) [
      | inl short ↦
          rw (inside, left, short) (ap some (sym (find-none ndx cptr (c ∷ cs) (ltb→lt _ _ short))))
      | inr fits ↦
          let n : ℕ = length cptr - suc (length cs) + 1 in
          let enough : length cptr < n + suc (length cs) = ground arith in
          rw (inside, left, fits, find-memchr ndx cptr c cs n enough)
            (follow (memchr cptr c n) (memchr-Inside cptr c n) (λ k tptr a b.
              search_loop-find fuel hl (ndx + k + 1) (behind tptr) c cs
                (omega (arith, length-behind tptr b)) (omega (arith, length-behind tptr b))))
    ]
  where
    -- The branches on the result of `memchr`, with the rest of the loop as a hypothesis.
    follow :
        (found : Option (ℕ × List ℕ))
        → Inside cptr found
        → ((k : ℕ) (tptr : List ℕ)
            → k + length tptr ≡ length cptr
            → 0 < length tptr
            → search_loop fuel hl (ndx + k + 1) (behind tptr) (c ∷ cs)
              ≡ some (find (ndx + k + 1) (behind tptr) (c ∷ cs)))
        → elim found [
          | none ↦ some none
          | some (k, tptr) ↦ elim (starts_with (c ∷ cs) tptr) [
            | true ↦ some (some (ndx + k))
            | false ↦ search_loop fuel hl (ndx + k + 1) (behind tptr) (c ∷ cs)
          ]
        ]
          ≡ some (from_match ndx (c ∷ cs) found)
    follow none i loop = refl
    follow (some (k, tptr)) i loop = elim (Bool-cases (starts_with (c ∷ cs) tptr)) [
      | inl e ↦ rw (e, find-here (ndx + k) tptr (c ∷ cs) e)
      | inr e ↦ rw (e, find-behind (ndx + k) tptr (c ∷ cs) e i.1) (loop k tptr i.0 i.1)
    ]

some_bytes : (l : List ℕ) → (suc (length l) == 0) ≡ false
some_bytes l = ground arith

-- For a needle that is not empty the search ends with a result: the offset of the first
-- occurrence in the haystack, and a null pointer only if there is none.
pub memmem-IsFirst :
    (haystack needle : List ℕ)
    → needle ≢ []
    → (r : Option ℕ) × (memmem haystack needle ≡ some r) × IsFirst haystack needle r
unfolding memmem find
memmem-IsFirst haystack [] h = absurd (h refl)
memmem-IsFirst [] (c ∷ cs) h = (none, refl, from_zero [] (c ∷ cs) none (find-IsFirstFrom 0 [] c cs))
memmem-IsFirst (x ∷ l) (c ∷ cs) h = (
  find 0 (x ∷ l) (c ∷ cs),
  rw (some_bytes l, some_bytes cs)
      (search_loop-find (suc (length (x ∷ l))) (length (x ∷ l)) 0 (x ∷ l) c cs (omega arith)
        (omega arith)),
  from_zero (x ∷ l) (c ∷ cs) (find 0 (x ∷ l) (c ∷ cs)) (find-IsFirstFrom 0 (x ∷ l) c cs),
)
