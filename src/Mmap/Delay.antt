-- ===== src/Mmap/Delay.antt =====
-- The delayed close of emsup/mmap_hack.c happens, once, with the last mapping of the file; in a
-- build with `NDEBUG` it never happens, since the call stands inside an `assert`.
use magiskboot_build.Prelude.{
  ℕ, ◌+◌, ℤ, eqb, eqb_iff, is_neg, is_zero, ==_iff, Bool, true, false, ◌||◌, some, List, ◌≡◌, refl,
  ap, ◌∙◌, arith, if◌then◌else◌, Bool-cases, Option-cases, inl, inr,
}
use magiskboot_build.Sys.{Sys, pure, Ensures, Ensures-bind}
use magiskboot_build.Mmap.Defs.{
  MapEntry, State, Posix, munmap_stub, has_fd, has_ptr, first_by_key, post_munmap_hook, close_entry,
}
use magiskboot_build.Mmap.Entries.{
  tracked, All, Removed, Removed-first, first-Removed, first_none, Removed-All, Removed-test,
  Removed-tracked, All_tracked,
}
use magiskboot_build.Mmap.Counts.{Counts, Fits}

-- The system calls of interest succeed.
pub record Succeeds {W : Type 0} (os : Posix W) : Type 0 where
  pub munmap_ok : (addr len : ℕ) (s : Sys W) → is_neg (os.munmap addr len s).0 ≡ false
  pub real_close_ok : (fd : ℤ) (s : Sys W) → is_zero (os.real_close fd s).0 ≡ true
  pub real_fclose_ok : (f : ℕ) (s : Sys W) → is_zero (os.real_fclose f s).0 ≡ true

-- `closed fd` says whether the program has closed `fd`: all mappings of a file agree on it.
abbrev pub Agrees : (ℤ → Bool) → MapEntry → Type 0
Agrees closed i = i.want_close ≡ closed i.fd

-- How often `g` is closed when a mapping of the closed file `fd` goes and `rest` is left.
abbrev pub due : (ndebug : Bool) (fd g : ℤ) → List MapEntry → ℕ
due ndebug fd g rest = if ndebug || tracked fd rest then 0 else if eqb fd g then 1 else 0

module _ {W : Type 0} {os : Posix W} (c : Counts os) where
  -- `t` has the list `l`, and `n g` more closes of each `g` than `s` had.
  pub record Closed (s : State W) (l : List MapEntry) (n : ℤ → ℕ) (t : State W) : Type 0 where
    pub left : t.maps ≡ l
    pub closes : (g : ℤ) → c.closes t.sys.world g ≡ c.closes s.sys.world g + n g

  module _ (works : Succeeds os) where
    close_entry-Closed :
        (ndebug : Bool) (i : MapEntry) (t : State W)
        → Fits c.stream_fd i
        → Ensures
            (λ _ u. Closed t t.maps (λ g. if ndebug then 0 else if eqb i.fd g then 1 else 0) u)
            (close_entry os ndebug i t)
    unfolding close_entry
    close_entry-Closed true i t f = elim (Bool-cases i.have_fp) [
      | inl e ↦ rw e (record { left = refl; closes = λ g. omega arith })
      | inr e ↦ rw e (record { left = refl; closes = λ g. omega arith })
    ]
    close_entry-Closed false i t f = elim (Bool-cases i.have_fp) [
      | inl e ↦ elim (Option-cases i.fp) [
        | inl n ↦ absurd (f.written e n)
        | inr (p, n) ↦
            rw (e, n, works.real_fclose_ok p t.sys, ← f.stream p n)
              (record { left = refl; closes = λ g. c.real_fclose_counts p g t.sys })
      ]
      | inr e ↦
          rw (e, works.real_close_ok i.fd t.sys)
            (record { left = refl; closes = λ g. c.real_close_counts i.fd g t.sys })
    ]

    hook-Closed :
        (closed : ℤ → Bool) (ndebug : Bool) (i : MapEntry) (t : State W)
        → Fits c.stream_fd i
        → All (Agrees closed) t.maps
        → closed i.fd ≡ true
        → Ensures
            (λ _ u. Closed t t.maps (λ g. due ndebug i.fd g t.maps) u)
            (post_munmap_hook os ndebug i i.len t)
    unfolding post_munmap_hook
    hook-Closed closed true i t f a d = elim (Option-cases (first_by_key (has_fd i.fd) t.maps)) [
      | inl e ↦ rw e (close_entry-Closed true i t f)
      | inr (j, e) ↦ rw e (record { left = refl; closes = λ g. omega arith })
    ]
    hook-Closed closed false i t f a d =
        rw ((==_iff i.len i.len).1 refl) (elim (Option-cases (first_by_key (has_fd i.fd) t.maps)) [
          | inl e ↦
              rw (e, All_tracked i.fd t.maps (first_none (has_fd i.fd) t.maps e))
                (close_entry-Closed false i t f)
          | inr ((j, rest), e) ↦
              let m = first-Removed (has_fd i.fd) t.maps e in
              let same : j.fd ≡ i.fd = (eqb_iff j.fd i.fd).0 (Removed-test m) in
              let marked : j.want_close ≡ true =
                (Removed-All (Agrees closed) m a).0 ∙ ap closed same ∙ d in
              let more : tracked i.fd t.maps ≡ true =
                ground (arith, Removed-tracked i.fd m, Removed-test m) in
              rw (e, marked, more) (record { left = refl; closes = λ g. omega arith })
        ])

    -- When the calls of `munmap`, `close` and `fclose` succeed, each entry of the list fits its file
    -- and the marks of all entries of a file agree: unmapping the first entry at `addr`, of a file that
    -- the program has closed, with the length that it was mapped with, returns what `munmap` does
    -- without a failed assertion and takes just that entry off the list; the file is closed once when
    -- no entry of it is left, and in a build with `NDEBUG` not at all; no other file is closed.
    pub munmap_stub-Closed :
        (closed : ℤ → Bool) (ndebug : Bool) (addr : ℕ) (s : State W) (i : MapEntry)
        (rest : List MapEntry)
        → Removed (has_ptr addr) s.maps i rest
        → All (Fits c.stream_fd) s.maps
        → All (Agrees closed) s.maps
        → closed i.fd ≡ true
        → Ensures
            (λ r t.
              (r ≡ (os.munmap addr i.len s.sys).0) × Closed s rest (λ g. due ndebug i.fd g rest) t)
            (munmap_stub os ndebug addr i.len s)
    unfolding munmap_stub
    munmap_stub-Closed closed ndebug addr s i rest m f a d =
        let e = Removed-first m in
        let fits = Removed-All (Fits c.stream_fd) m f in
        let agree = Removed-All (Agrees closed) m a in
        let t : State W = record { sys = (os.munmap addr i.len s.sys).1; maps = rest } in
        rw (works.munmap_ok addr i.len s.sys, e, agree.0, d)
          (Ensures-bind (λ _ u. Closed t rest (λ g. due ndebug i.fd g rest) u)
            (λ r u.
              (r ≡ (os.munmap addr i.len s.sys).0) × Closed s rest (λ g. due ndebug i.fd g rest) u)
            (post_munmap_hook os ndebug i i.len t) (λ _. pure (os.munmap addr i.len s.sys).0)
            (hook-Closed closed ndebug i t fits.0 agree.1 d)
            λ _ u h. (
              refl,
              record {
                left = h.left;
                closes = λ g. omega (arith, h.closes g, c.munmap_keeps addr i.len g s.sys);
              },
            ))

    -- A region of a file that is still open goes without a close.
    pub munmap_stub-open :
        (closed : ℤ → Bool) (ndebug : Bool) (addr len : ℕ) (s : State W) (i : MapEntry)
        (rest : List MapEntry)
        → first_by_key (has_ptr addr) s.maps ≡ some (i, rest)
        → All (Agrees closed) s.maps
        → closed i.fd ≡ false
        → Ensures (λ _ t. Closed s rest (λ _. 0) t) (munmap_stub os ndebug addr len s)
    unfolding munmap_stub
    munmap_stub-open closed ndebug addr len s i rest e a d =
        let agree = Removed-All (Agrees closed) (first-Removed (has_ptr addr) s.maps e) a in
        rw (works.munmap_ok addr len s.sys, e, agree.0, d)
          (record { left = refl; closes = λ g. omega (arith, c.munmap_keeps addr len g s.sys) })
