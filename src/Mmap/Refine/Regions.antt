-- ===== src/Mmap/Refine/Regions.antt =====
-- The entries of emsup/mmap_hack.c and the regions that they stand for.
use magiskboot_build.Prelude.{
  ℕ, ℤ, eqb, eqb_iff, false, Bool-cases, Option, none, some, List, [], ◌∷◌, ◌≡◌, refl, inl, inr,
  arith,
}
use mathlib.Core.Path.{subst}
use magiskboot_build.Mmap.Defs.{
  MapEntry, filter_map_by_key, has_fd, has_ptr, mark_close, mark_fclose,
}
use magiskboot_build.Mmap.Entries.{tracked, All, Removed, here, there, filter-All}
use magiskboot_build.Mmap.Refine.{
  Closing, mapped, region_at, without, put, later, region_of, regions_of, MarkOf,
}

pub tracked-mapped : (fd : ℤ) (l : List MapEntry) → tracked fd l ≡ mapped fd (regions_of l)
tracked-mapped fd [] = refl
tracked-mapped fd (i ∷ l) = rw (tracked-mapped fd l) refl

pub region_at-none :
    (addr : ℕ) (l : List MapEntry)
    → All (λ i. has_ptr addr i ≡ false) l
    → region_at addr (regions_of l) ≡ none
region_at-none addr [] h = refl
region_at-none addr (i ∷ l) (e, h) = rw (e, region_at-none addr l h) refl

pub region_at-without :
    (addr : ℕ) {l : List MapEntry} {i : MapEntry} {rest : List MapEntry}
    → Removed (has_ptr addr) l i rest
    → (region_at addr (regions_of l) ≡ some (region_of i))
      × (without addr (regions_of l) ≡ regions_of rest)
region_at-without addr (here e) = rw e (refl, refl)
region_at-without addr (there {j = j} e m) =
    let (found, others) = region_at-without addr m in rw (e, found, others) (refl, refl)

-- The loop that marks keeps the regions.
pub filter-regions_of :
    (fd : ℤ) (handler : MapEntry → MapEntry)
    → ((i : MapEntry) → region_of (handler i) ≡ region_of i)
    → (l : List MapEntry) → regions_of (filter_map_by_key (has_fd fd) handler l).0 ≡ regions_of l
filter-regions_of fd handler keeps [] = refl
filter-regions_of fd handler keeps (i ∷ l) = elim (Bool-cases (has_fd fd i)) [
  | inl e ↦ rw (e, keeps i, filter-regions_of fd handler keeps l) refl
  | inr e ↦ rw (e, filter-regions_of fd handler keeps l) refl
]

mark_close-MarkOf :
    (o : Option Closing) (i : MapEntry)
    → MarkOf o i
    → MarkOf (some (later (Closing.descriptor i.fd) o)) (mark_close i)
mark_close-MarkOf none i (w, f) = (refl, f, refl)
mark_close-MarkOf (some (Closing.descriptor g)) i (w, f, d) = (refl, f, refl)
mark_close-MarkOf (some (Closing.stream p)) i (w, f, d) = (refl, f, d)

module _ (fd : ℤ) (pending : ℤ → Option Closing) (l : List MapEntry)
    (h : All (λ i. MarkOf (pending i.fd) i) l) where
  -- The marks of the loops of `close` and of `fclose`.
  pub close-marks :
      All
        (λ i. MarkOf (put fd (some (later (Closing.descriptor fd) (pending fd))) pending i.fd) i)
        (filter_map_by_key (has_fd fd) mark_close l).0
  close-marks =
      filter-All fd mark_close (λ i. refl) (λ i. MarkOf (pending i.fd) i) _ l
        (λ i e m. rw e (
          subst (λ g. MarkOf (some (later (Closing.descriptor g) (pending g))) (mark_close i))
            ((eqb_iff i.fd fd).0 e) (mark_close-MarkOf (pending i.fd) i m)))
        (λ i e m. rw e m) h

  pub fclose-marks :
      (f : ℕ)
      → All
          (λ i. MarkOf (put fd (some (Closing.stream f)) pending i.fd) i)
          (filter_map_by_key (has_fd fd) (mark_fclose f) l).0
  fclose-marks f =
      filter-All fd (mark_fclose f) (λ i. refl) (λ i. MarkOf (pending i.fd) i) _ l
        (λ i e m. rw e (refl, refl, refl)) (λ i e m. rw e m) h

  -- A close that waits no more, of a file without an entry.
  pub put-marks :
      (o : Option Closing) → tracked fd l ≡ false → All (λ i. MarkOf (put fd o pending i.fd) i) l
  put-marks o t = go l t h
    where
      go :
          (k : List MapEntry)
          → tracked fd k ≡ false
          → All (λ i. MarkOf (pending i.fd) i) k
          → All (λ i. MarkOf (put fd o pending i.fd) i) k
      go [] u m = tt
      go (i ∷ k) u (m, ms) =
          let differs : eqb i.fd fd ≡ false = ground arith in (rw differs m, go k (ground arith) ms)
