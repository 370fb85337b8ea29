-- ===== src/Mmap/Drain.antt =====
-- A program that unmaps all its regions: emsup/mmap_hack.c then closes each file that the program
-- has closed, exactly once, and keeps no node.
use magiskboot_build.Prelude.{
  ℕ, ◌+◌, ℤ, eqb, eqb_iff, ==_iff, Bool, true, false, ◌&&◌, some, List, [], ◌∷◌, ◌≡◌, refl, arith,
  if◌then◌else◌, Bool-cases, inl, inr,
}
use magiskboot_build.Sys.{M, pure, ◌>>=◌, Ensures, Ensures-bind, Ensures-mono}
use magiskboot_build.Mmap.Defs.{MapEntry, State, Posix, munmap_stub, has_ptr, first_by_key}
use magiskboot_build.Mmap.Entries.{tracked, All, first-Removed}
use magiskboot_build.Mmap.Counts.{Counts, Fits}
use magiskboot_build.Mmap.Delay.{
  Succeeds, Agrees, Closed, due, munmap_stub-Closed, munmap_stub-open,
}

unfoldable pub unmap_all : {W : Type 0} → Posix W → Bool → List MapEntry → M (State W) (Unit {0})
unmap_all os ndebug [] = pure tt
unmap_all os ndebug (i ∷ r) = munmap_stub os ndebug i.ptr i.len >>= λ _. unmap_all os ndebug r

-- How often `g` is closed when the whole list goes.
abbrev pub owed : (closed : ℤ → Bool) → List MapEntry → ℤ → ℕ
owed closed l g = if tracked g l && closed g then 1 else 0

owed-cons :
    (closed : ℤ → Bool) (i : MapEntry) (r : List MapEntry) (g : ℤ)
    → closed i.fd ≡ true
    → owed closed (i ∷ r) g ≡ due false i.fd g r + owed closed r g
owed-cons closed i r g d = elim (Bool-cases (eqb i.fd g)) [
  | inl e ↦ let same : i.fd ≡ g = (eqb_iff i.fd g).0 e in rw (e, ← same, d) (ground arith)
  | inr e ↦ rw e (elim (Bool-cases (tracked i.fd r)) [
    | inl u ↦ rw u (omega arith)
    | inr u ↦ rw u (omega arith)
  ])
]

owed-open :
    (closed : ℤ → Bool) (i : MapEntry) (r : List MapEntry) (g : ℤ)
    → closed i.fd ≡ false
    → owed closed (i ∷ r) g ≡ owed closed r g
owed-open closed i r g d = elim (Bool-cases (eqb i.fd g)) [
  | inl e ↦ let same : i.fd ≡ g = (eqb_iff i.fd g).0 e in rw (e, ← same, d) (ground arith)
  | inr e ↦ rw e
]

first_head : (i : MapEntry) (r : List MapEntry) → first_by_key (has_ptr i.ptr) (i ∷ r) ≡ some (i, r)
first_head i r = rw ((==_iff i.ptr i.ptr).1 refl)

module _ {W : Type 0} {os : Posix W} (c : Counts os) (works : Succeeds os) (closed : ℤ → Bool) where
  -- What is still owed to each file is paid off by the closes that happen.
  record Pays (s : State W) (l r : List MapEntry) (t : State W) : Type 0 where
    left : t.maps ≡ r
    paid :
        (g : ℤ)
        → c.closes t.sys.world g + owed closed r g ≡ c.closes s.sys.world g + owed closed l g

  unmap_next :
      (i : MapEntry) (r : List MapEntry) (s : State W)
      → s.maps ≡ i ∷ r
      → All (Fits c.stream_fd) (i ∷ r)
      → All (Agrees closed) (i ∷ r)
      → Ensures (λ _ t. Pays s (i ∷ r) r t) (munmap_stub os false i.ptr i.len s)
  unmap_next i r s e f a =
      let found : first_by_key (has_ptr i.ptr) s.maps ≡ some (i, r) = rw e (first_head i r) in
      elim (Bool-cases (closed i.fd)) [
        | inl d ↦
            Ensures-mono _ (λ _ t. Pays s (i ∷ r) r t) (munmap_stub os false i.ptr i.len s)
              (munmap_stub-Closed c works closed false i.ptr s i r
                (first-Removed (has_ptr i.ptr) s.maps found) (rw e f) (rw e a) d)
              λ _ t (_, h). record {
                left = h.left;
                paid = λ g. omega (arith, h.closes g, owed-cons closed i r g d);
              }
        | inr d ↦
            Ensures-mono _ (λ _ t. Pays s (i ∷ r) r t) (munmap_stub os false i.ptr i.len s)
              (munmap_stub-open c works closed false i.ptr i.len s i r found (rw e a) d)
              λ _ t h. record {
                left = h.left;
                paid = λ g. omega (arith, h.closes g, owed-open closed i r g d);
              }
      ]

  unmap_all-Pays :
      (l : List MapEntry) (s : State W)
      → s.maps ≡ l
      → All (Fits c.stream_fd) l
      → All (Agrees closed) l
      → Ensures (λ _ t. Pays s l [] t) (unmap_all os false l s)
  unfolding unmap_all
  unmap_all-Pays [] s e f a = record { left = e; paid = λ g. refl }
  unmap_all-Pays (i ∷ r) s e f a =
      Ensures-bind (λ _ t. Pays s (i ∷ r) r t) (λ _ u. Pays s (i ∷ r) [] u)
        (munmap_stub os false i.ptr i.len s) (λ _. unmap_all os false r) (unmap_next i r s e f a)
        λ _ t h.
          Ensures-mono (λ _ u. Pays t r [] u) (λ _ u. Pays s (i ∷ r) [] u) (unmap_all os false r t)
            (unmap_all-Pays r t h.left f.1 a.1)
            λ _ u k. record { left = k.left; paid = λ g. omega (arith, k.paid g, h.paid g) }

  -- With assertions on and system calls that succeed, unmapping every tracked region, one after
  -- the other, never fails an assertion and leaves no node; each tracked file that the program has
  -- closed is closed exactly once on the way, and no other is.
  pub unmap_all-Closed :
      (s : State W)
      → All (Fits c.stream_fd) s.maps
      → All (Agrees closed) s.maps
      → Ensures (λ _ t. Closed c s [] (owed closed s.maps) t) (unmap_all os false s.maps s)
  unmap_all-Closed s f a =
      Ensures-mono (λ _ t. Pays s s.maps [] t) (λ _ t. Closed c s [] (owed closed s.maps) t)
        (unmap_all os false s.maps s) (unmap_all-Pays s.maps s refl f a)
        λ _ t h. record { left = h.left; closes = λ g. omega (arith, h.paid g) }
