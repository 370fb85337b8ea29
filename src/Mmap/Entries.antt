-- ===== src/Mmap/Entries.antt =====
-- What the two loops over `maps` in emsup/mmap_hack.c do to the list.
use magiskboot_build.Prelude.{
  ℤ, eqb, Bool, true, false, ◌||◌, Option, none, some, List, [], ◌∷◌, ◌≡◌, refl, arith, Bool-cases,
  inl, inr,
}
use mathlib.Core.Path.{subst}
use magiskboot_build.Mmap.Defs.{MapEntry, filter_map_by_key, first_by_key, has_fd}

-- Some mapping of `fd` is tracked.
abbrev pub tracked : ℤ → List MapEntry → Bool
tracked fd [] = false
tracked fd (i ∷ r) = eqb i.fd fd || tracked fd r

abbrev pub All : (MapEntry → Type 0) → List MapEntry → Type 0
All P [] = Unit
All P (i ∷ r) = P i × All P r

-- The entries of two lists are related one by one.
abbrev pub Pairs : (MapEntry → MapEntry → Type 0) → List MapEntry → List MapEntry → Type 0
Pairs R [] [] = Unit
Pairs R [] (j ∷ t) = ⊥
Pairs R (i ∷ r) [] = ⊥
Pairs R (i ∷ r) (j ∷ t) = R i j × Pairs R r t

module _ (fd : ℤ) (handler : MapEntry → MapEntry)
    (keeps : (i : MapEntry) → (handler i).fd ≡ i.fd) where
  abbrev after : List MapEntry → List MapEntry × Bool
  after l = filter_map_by_key (has_fd fd) handler l

  -- The flag of the macro says whether the file is tracked.
  pub filter_flag : (l : List MapEntry) → (after l).1 ≡ tracked fd l
  filter_flag [] = refl
  filter_flag (i ∷ r) = ground (arith, filter_flag r)

  pub filter-tracked : (g : ℤ) (l : List MapEntry) → tracked g (after l).0 ≡ tracked g l
  filter-tracked g [] = refl
  filter-tracked g (i ∷ r) = elim (Bool-cases (has_fd fd i)) [
    | inl e ↦ rw e (rw (keeps i, filter-tracked g r))
    | inr e ↦ rw e (rw (filter-tracked g r))
  ]

  pub filter-All :
      (P Q : MapEntry → Type 0) (l : List MapEntry)
      → ((i : MapEntry) → eqb i.fd fd ≡ true → P i → Q (handler i))
      → ((i : MapEntry) → eqb i.fd fd ≡ false → P i → Q i)
      → All P l
      → All Q (after l).0
  filter-All P Q [] hit miss h = tt
  filter-All P Q (i ∷ r) hit miss h = elim (Bool-cases (has_fd fd i)) [
    | inl e ↦ rw e (hit i e h.0, filter-All P Q r hit miss h.1)
    | inr e ↦ rw e (miss i e h.0, filter-All P Q r hit miss h.1)
  ]

  pub filter-Pairs :
      (R : MapEntry → MapEntry → Type 0) (l : List MapEntry)
      → ((i : MapEntry) → eqb i.fd fd ≡ true → R i (handler i))
      → ((i : MapEntry) → eqb i.fd fd ≡ false → R i i)
      → Pairs R l (after l).0
  filter-Pairs R [] hit miss = tt
  filter-Pairs R (i ∷ r) hit miss = elim (Bool-cases (has_fd fd i)) [
    | inl e ↦ rw e (hit i e, filter-Pairs R r hit miss)
    | inr e ↦ rw e (miss i e, filter-Pairs R r hit miss)
  ]

-- `i` is the first match in a list, and the third list is the others in order.
pub data Removed (test : MapEntry → Bool) : List MapEntry → MapEntry → List MapEntry → Type 0 where
  here : {i : MapEntry} {r : List MapEntry} → test i ≡ true → Removed test (i ∷ r) i r
  there :
      {i j : MapEntry} {r rest : List MapEntry}
      → test j ≡ false
      → Removed test r i rest
      → Removed test (j ∷ r) i (j ∷ rest)

abbrev Found : (MapEntry → Bool) → List MapEntry → Option (MapEntry × List MapEntry) → Type 0
Found test l none = All (λ i. test i ≡ false) l
Found test l (some (i, rest)) = Removed test l i rest

abbrev behind : MapEntry → Option (MapEntry × List MapEntry) → Option (MapEntry × List MapEntry)
behind j found = elim found [ none ↦ none | some (i, rest) ↦ some (i, j ∷ rest) ]

module _ (test : MapEntry → Bool) where
  Found-behind :
      (j : MapEntry) (r : List MapEntry) (found : Option (MapEntry × List MapEntry))
      → test j ≡ false
      → Found test r found
      → Found test (j ∷ r) (behind j found)
  Found-behind j r none e h = (e, h)
  Found-behind j r (some (i, rest)) e h = there e h

  first-Found : (l : List MapEntry) → Found test l (first_by_key test l)
  first-Found [] = tt
  first-Found (j ∷ r) = elim (Bool-cases (test j)) [
    | inl e ↦ rw e (here e)
    | inr e ↦ rw e (Found-behind j r (first_by_key test r) e (first-Found r))
  ]

  pub first-Removed :
      (l : List MapEntry) {i : MapEntry} {rest : List MapEntry}
      → first_by_key test l ≡ some (i, rest)
      → Removed test l i rest
  first-Removed l e = subst (Found test l) e (first-Found l)

  pub first_none : (l : List MapEntry) → first_by_key test l ≡ none → All (λ i. test i ≡ false) l
  first_none l e = subst (Found test l) e (first-Found l)

module _ {test : MapEntry → Bool} where
  pub Removed-All :
      (P : MapEntry → Type 0) {l : List MapEntry} {i : MapEntry} {rest : List MapEntry}
      → Removed test l i rest
      → All P l
      → P i × All P rest
  Removed-All P (here e) h = h
  Removed-All P (there e m) h = let both = Removed-All P m h.1 in (both.0, (h.0, both.1))

  pub Removed-tracked :
      (g : ℤ) {l : List MapEntry} {i : MapEntry} {rest : List MapEntry}
      → Removed test l i rest
      → tracked g l ≡ (eqb i.fd g || tracked g rest)
  Removed-tracked g (here e) = refl
  Removed-tracked g (there e m) = ground (arith, Removed-tracked g m)

  pub Removed-first :
      {l : List MapEntry} {i : MapEntry} {rest : List MapEntry}
      → Removed test l i rest
      → first_by_key test l ≡ some (i, rest)
  Removed-first (here e) = rw e refl
  Removed-first (there e m) = rw (e, Removed-first m) refl

  pub Removed-test :
      {l : List MapEntry} {i : MapEntry} {rest : List MapEntry}
      → Removed test l i rest
      → test i ≡ true
  Removed-test (here e) = e
  Removed-test (there e m) = Removed-test m

pub All_tracked :
    (fd : ℤ) (l : List MapEntry) → All (λ i. has_fd fd i ≡ false) l → tracked fd l ≡ false
All_tracked fd [] h = refl
All_tracked fd (i ∷ r) h = rw h.0 (All_tracked fd r h.1)
