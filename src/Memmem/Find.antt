-- ===== src/Memmem/Find.antt =====
-- A search without `memchr`, which `memmem` of winsup/str.c is compared with.
use magiskboot_build.Memmem.{behind}
use magiskboot_build.Prelude.{
  ℕ, zero, suc, ◌+◌, ◌==◌, ◌<◌, true, false, Option, none, some, List, [], ◌∷◌, ◌≡◌, refl, arith,
  length, drop, starts_with, if◌then◌else◌, Bool-cases, inl, inr,
}

-- The offset, from `i` on, of the first place at which the needle stands.
unfoldable pub find : (i : ℕ) (l needle : List ℕ) → Option ℕ
find i [] needle = if starts_with needle [] then some i else none
find i (x ∷ l) needle =
    let later = find (suc i) l needle in if starts_with needle (x ∷ l) then some i else later

starts_with-le : (needle l : List ℕ) → length l < length needle → starts_with needle l ≡ false
starts_with-le [] l h = absurd (omega arith)
starts_with-le (x ∷ needle) [] h = refl
starts_with-le (x ∷ needle) (y ∷ l) h = ground (arith, starts_with-le needle l)

pub find-none : (i : ℕ) (l needle : List ℕ) → length l < length needle → find i l needle ≡ none
unfolding find
find-none i [] needle h = rw (starts_with-le needle [] h)
find-none i (x ∷ l) needle h =
    rw (starts_with-le needle (x ∷ l) h) (find-none (suc i) l needle (omega arith))

pub find_miss :
    (i x : ℕ) (l : List ℕ) (c : ℕ) (cs : List ℕ)
    → (c == x) ≡ false
    → find i (x ∷ l) (c ∷ cs) ≡ find (suc i) l (c ∷ cs)
unfolding find
find_miss i x l c cs e = rw e

-- One byte on from a place where the needle does not stand.
pub find-behind :
    (i : ℕ) (l needle : List ℕ)
    → starts_with needle l ≡ false
    → 0 < length l
    → find i l needle ≡ find (i + 1) (behind l) needle
unfolding find
find-behind i [] needle e h = absurd (omega arith)
find-behind i (x ∷ l) needle e h = let next : suc i ≡ i + 1 = omega arith in rw (e, next)

pub find-here : (i : ℕ) (l needle : List ℕ) → starts_with needle l ≡ true → find i l needle ≡ some i
unfolding find
find-here i [] needle e = rw e
find-here i (x ∷ l) needle e = rw e

-- The result is the offset of the first occurrence, or there is none.
abbrev pub IsFirst : (haystack needle : List ℕ) → Option ℕ → Type 0
IsFirst haystack needle none = (k : ℕ) → starts_with needle (drop k haystack) ≡ false
IsFirst haystack needle (some j) =
    (starts_with needle (drop j haystack) ≡ true)
    × ((k : ℕ) → k < j → starts_with needle (drop k haystack) ≡ false)

-- The same for a search that counts from `i`.
abbrev IsFirstFrom : (i : ℕ) (l needle : List ℕ) → Option ℕ → Type 0
IsFirstFrom i l needle none = (k : ℕ) → starts_with needle (drop k l) ≡ false
IsFirstFrom i l needle (some j) =
    (m : ℕ) × (j ≡ i + m)
    × (starts_with needle (drop m l) ≡ true)
    × ((k : ℕ) → k < m → starts_with needle (drop k l) ≡ false)

misses :
    (x : ℕ) (l needle : List ℕ) (m : ℕ)
    → starts_with needle (x ∷ l) ≡ false
    → ((k : ℕ) → k < m → starts_with needle (drop k l) ≡ false)
    → (k : ℕ) → k < suc m
    → starts_with needle (drop k (x ∷ l)) ≡ false
misses x l needle m e h zero lt = e
misses x l needle m e h (suc k) lt = h k (omega arith)

IsFirstFrom-suc :
    (i x : ℕ) (l needle : List ℕ) (r : Option ℕ)
    → starts_with needle (x ∷ l) ≡ false
    → IsFirstFrom (suc i) l needle r
    → IsFirstFrom i (x ∷ l) needle r
IsFirstFrom-suc i x l needle none e h = elim [ zero ↦ e | suc k ↦ h k ]
IsFirstFrom-suc i x l needle (some j) e (m, at, hit, before) =
    (suc m, omega arith, hit, misses x l needle m e before)

pub find-IsFirstFrom :
    (i : ℕ) (l : List ℕ) (c : ℕ) (cs : List ℕ) → IsFirstFrom i l (c ∷ cs) (find i l (c ∷ cs))
unfolding find
find-IsFirstFrom i [] c cs = elim [ zero ↦ refl | suc k ↦ refl ]
find-IsFirstFrom i (x ∷ l) c cs = elim (Bool-cases (starts_with (c ∷ cs) (x ∷ l))) [
  | inl e ↦ rw e (0, omega arith, e, λ k lt. absurd (omega arith))
  | inr e ↦
      rw e (
        IsFirstFrom-suc i x l (c ∷ cs) (find (suc i) l (c ∷ cs)) e
          (find-IsFirstFrom (suc i) l c cs))
]

pub from_zero : (l needle : List ℕ) (r : Option ℕ) → IsFirstFrom 0 l needle r → IsFirst l needle r
from_zero l needle none h = h
from_zero l needle (some j) (m, at, hit, before) = let e : j ≡ m = omega arith in rw e (hit, before)
