-- ===== src/Mmap/Refine/Step.antt =====
-- Each call of emsup/mmap_hack.c does to the files what its event says.
use magiskboot_build.Prelude.{
  ℕ, ℤ, eqb_iff, is_neg, is_zero, Bool, true, false, Bool-cases, ==_iff, Option, none, some,
  Option-cases, List, ◌∷◌, ◌≡◌, refl, sym, ap, ◌∙◌, inl, inr, arith, if◌then◌else◌,
}
use mathlib.Core.Path.{subst}
use magiskboot_build.Sys.{Sys, pure, and_then, Ensures, Ensures-bind, Ensures-mono}
use magiskboot_build.Mmap.Defs.{
  MapEntry, State, Posix, mmap_stub, munmap_stub, wrap_close, wrap_fclose, has_fd, has_ptr,
  mark_close, mark_fclose, first_by_key, post_munmap_hook, close_entry,
}
use magiskboot_build.Mmap.Entries.{
  tracked, All, first-Removed, first_none, Removed-All, Removed-test, Removed-tracked, All_tracked,
  filter_flag,
}
use magiskboot_build.Mmap.Trace.{Op, step}
use magiskboot_build.Mmap.Refine.{
  Region, Closing, Files, mapped, region_at, without, put, release, spec, writes_back, Logs,
  region_of, regions_of, MarkOf, Represents, event, Legal,
}
use magiskboot_build.Mmap.Refine.Regions.{
  tracked-mapped, region_at-none, region_at-without, filter-regions_of, close-marks, fclose-marks,
  put-marks,
}

-- The calls that close succeed.
pub record Closes {W : Type 0} (os : Posix W) : Type 0 where
  pub real_close_ok : (fd : ℤ) (s : Sys W) → is_zero (os.real_close fd s).0 ≡ true
  pub real_fclose_ok : (f : ℕ) (s : Sys W) → is_zero (os.real_fclose f s).0 ≡ true

module _ {W : Type 0} {os : Posix W} (c : Logs os) where
  mapped_by :
      (fd : ℤ) (s : State W) (a : Files)
      → Represents c s a
      → tracked fd s.maps ≡ mapped fd a.regions
  mapped_by fd s a h = tracked-mapped fd s.maps ∙ ap (mapped fd) h.regions

  -- The system goes on without a close.
  kept-Represents :
      (s : State W) (a : Files) (sys : Sys W)
      → Represents c s a
      → c.log sys.world ≡ c.log s.sys.world
      → Represents c (record s { sys = sys }) a
  kept-Represents s a sys h same = record {
    regions = h.regions;
    marks = h.marks;
    closed = same ∙ h.closed;
  }

  closed-Represents :
      (s : State W) (a : Files) (sys : Sys W) (x : Closing)
      → Represents c s a
      → c.log sys.world ≡ x ∷ c.log s.sys.world
      → Represents c (record s { sys = sys }) (record a { closed = x ∷ a.closed })
  closed-Represents s a sys x h more = record {
    regions = h.regions;
    marks = h.marks;
    closed = more ∙ ap (λ (l : List Closing). x ∷ l) h.closed;
  }

  module _ (s : State W) (a : Files) (h : Represents c s a) where
    mmap-Represents :
        ((t : Sys W) → (os.malloc t).0 ≡ true)
        → (addr len prot flags : ℕ) (fildes off : ℤ)
        → Legal os (Op.mmap addr len prot flags fildes off) a
        → Ensures
            (λ _ t.
              Represents c t (spec (event os (Op.mmap addr len prot flags fildes off) s.sys) a))
            (mmap_stub os false addr len prot flags fildes off s)
    unfolding mmap_stub
    mmap-Represents memory addr len prot flags fildes off legal =
        let sys' : Sys W = (os.mmap addr len prot flags fildes off s.sys).1 in
        let same = c.mmap_logs addr len prot flags fildes off s.sys in
        elim (Option-cases (os.mmap addr len prot flags fildes off s.sys).0) [
          | inl e ↦ elim (Bool-cases (writes_back prot flags fildes)) [
            | inl d ↦ rw (e, d) (kept-Represents s a sys' h same)
            | inr d ↦ rw (e, d) (kept-Represents s a sys' h same)
          ]
          | inr (p, e) ↦ elim (Bool-cases (writes_back prot flags fildes)) [
            | inl d ↦
                rw (e, d, memory sys')
                  (record {
                    regions =
                        ap
                          (λ (l : List Region). record { start = p; size = len; file = fildes } ∷ l)
                          h.regions;
                    marks = (rw (legal d) (refl, refl), h.marks);
                    closed = c.malloc_logs sys' ∙ same ∙ h.closed;
                  })
            | inr d ↦ rw (e, d) (kept-Represents s a sys' h same)
          ]
        ]

    close-Represents :
        (fd : ℤ)
        → Ensures
            (λ _ t. Represents c t (spec (event os (Op.close fd) s.sys) a))
            (wrap_close os false fd s)
    unfolding wrap_close
    close-Represents fd =
        let sys' = (os.fcntl_getfd fd s.sys).1 in
        let same = c.fcntl_logs fd s.sys in
        elim (Bool-cases (is_neg (os.fcntl_getfd fd s.sys).0)) [
          | inl e ↦ rw e (kept-Represents s a sys' h same)
          | inr e ↦ elim (Bool-cases (mapped fd a.regions)) [
            | inl t ↦
                rw (e, filter_flag fd mark_close (λ i. refl) s.maps, mapped_by fd s a h, t)
                  (record {
                    regions = filter-regions_of fd mark_close (λ i. refl) s.maps ∙ h.regions;
                    marks = close-marks fd a.pending s.maps h.marks;
                    closed = same ∙ h.closed;
                  })
            | inr t ↦
                rw (e, filter_flag fd mark_close (λ i. refl) s.maps, mapped_by fd s a h, t)
                  (closed-Represents s a (os.real_close fd sys').1 (Closing.descriptor fd) h (
                    c.real_close_logs fd sys'
                    ∙ ap (λ (l : List Closing). Closing.descriptor fd ∷ l) same))
          ]
        ]

    fclose-Represents :
        (f : Option ℕ)
        → Ensures
            (λ _ t. Represents c t (spec (event os (Op.fclose f) s.sys) a))
            (wrap_fclose os false f s)
    unfolding wrap_fclose
    fclose-Represents none = record { regions = h.regions; marks = h.marks; closed = h.closed }
    fclose-Represents (some f) =
        let fd = (os.fileno f s.sys).0 in
        let sys' = (os.fileno f s.sys).1 in
        let same = c.fileno_logs f s.sys in
        let really =
          c.real_fclose_logs f sys' ∙ ap (λ (l : List Closing). Closing.stream f ∷ l) same in
        elim (Bool-cases (is_neg fd)) [
          | inl e ↦
              rw e (closed-Represents s a (os.real_fclose f sys').1 (Closing.stream f) h really)
          | inr e ↦ elim (Bool-cases (mapped fd a.regions)) [
            | inl t ↦
                rw (e, filter_flag fd (mark_fclose f) (λ i. refl) s.maps, mapped_by fd s a h, t)
                  (record {
                    regions = filter-regions_of fd (mark_fclose f) (λ i. refl) s.maps ∙ h.regions;
                    marks = fclose-marks fd a.pending s.maps h.marks f;
                    closed = c.fflush_logs f sys' ∙ same ∙ h.closed;
                  })
            | inr t ↦
                rw (e, filter_flag fd (mark_fclose f) (λ i. refl) s.maps, mapped_by fd s a h, t)
                  (closed-Represents s a (os.real_fclose f sys').1 (Closing.stream f) h really)
          ]
        ]

  module _ (works : Closes os) where
    -- The close that the marks of an entry call for is made.
    close_entry_lem :
        (x : Closing) (i : MapEntry) (t : State W)
        → MarkOf (some x) i
        → Ensures
            (λ _ u. (u.maps ≡ t.maps) × (c.log u.sys.world ≡ x ∷ c.log t.sys.world))
            (close_entry os false i t)
    unfolding close_entry
    close_entry_lem (Closing.descriptor g) i t (w, f, d) =
        rw (f, d, works.real_close_ok i.fd t.sys) (refl, c.real_close_logs i.fd t.sys)
    close_entry_lem (Closing.stream p) i t (w, f, d) =
        rw (f, d, works.real_fclose_ok p t.sys) (refl, c.real_fclose_logs p t.sys)

    wants_close : (x : Closing) (j : MapEntry) → MarkOf (some x) j → j.want_close ≡ true
    wants_close (Closing.descriptor g) j m = m.0
    wants_close (Closing.stream f) j m = m.0

    hook-Represents :
        (x : Closing) (i : MapEntry) (t : State W) (b : Files)
        → Represents c t b
        → b.pending i.fd ≡ some x
        → MarkOf (some x) i
        → Ensures (λ _ u. Represents c u (release i.fd b)) (post_munmap_hook os false i i.len t)
    unfolding post_munmap_hook
    hook-Represents x i t b h p m =
        let whole = (==_iff i.len i.len).1 refl in
        elim (Option-cases (first_by_key (has_fd i.fd) t.maps)) [
          | inl e ↦
              let gone = All_tracked i.fd t.maps (first_none (has_fd i.fd) t.maps e) in
              rw (whole, e, sym (mapped_by i.fd t b h), gone, p)
                (Ensures-mono _ _ (close_entry os false i t) (close_entry_lem x i t m)
                  λ _ u (kept, more). record {
                    regions = ap regions_of kept ∙ h.regions;
                    marks =
                        subst (All (λ j. MarkOf (put i.fd none b.pending j.fd) j)) (sym kept)
                          (put-marks i.fd b.pending t.maps h.marks none gone);
                    closed = more ∙ ap (λ (l : List Closing). x ∷ l) h.closed;
                  })
          | inr ((j, rest), e) ↦
              let r = first-Removed (has_fd i.fd) t.maps e in
              let same = (eqb_iff j.fd i.fd).0 (Removed-test r) in
              let marked = (Removed-All (λ k. MarkOf (b.pending k.fd) k) r h.marks).0 in
              let more : tracked i.fd t.maps ≡ true =
                ground (arith, Removed-tracked i.fd r, Removed-test r) in
              let waits : j.want_close ≡ true =
                wants_close x j (subst (λ o. MarkOf o j) (ap b.pending same ∙ p) marked) in
              rw (whole, e, waits, sym (mapped_by i.fd t b h), more) h
        ]

    -- After the entry `i` is off the list.
    release-none : (fd : ℤ) (b : Files) → b.pending fd ≡ none → release fd b ≡ b
    release-none fd b p = elim (Bool-cases (mapped fd b.regions)) [
      | inl e ↦ rw e refl
      | inr e ↦ rw (e, p) refl
    ]

    removed-Represents :
        (i : MapEntry) (t : State W) (b : Files) (w : Bool) (o : Option Closing)
        → i.want_close ≡ w
        → Represents c t b
        → b.pending i.fd ≡ o
        → MarkOf o i
        → (res : ℤ)
        → Ensures
            (λ _ u. Represents c u (release i.fd b))
            (and_then
              ((if w then post_munmap_hook os false i i.len else pure tt) t)
              (λ _. pure res))
    removed-Represents i t b true none w h p m res = absurd (ground (arith, w, m.0))
    removed-Represents i t b false none w h p m res = rw (release-none i.fd b p) h
    removed-Represents i t b false (some x) w h p m res =
        absurd (ground (arith, wants_close x i m, w))
    removed-Represents i t b true (some x) w h p m res =
        Ensures-bind (λ _ u. Represents c u (release i.fd b))
          (λ _ u. Represents c u (release i.fd b)) (post_munmap_hook os false i i.len t)
          (λ _. pure res) (hook-Represents x i t b h p m) (λ _ u k. k)

    module _ (addr : ℕ) (s : State W) (a : Files) (h : Represents c s a) where
      -- A tracked region is unmapped as a whole.
      munmap_tracked :
          (i : MapEntry) (rest : List MapEntry)
          → first_by_key (has_ptr addr) s.maps ≡ some (i, rest)
          → is_neg (os.munmap addr i.len s.sys).0 ≡ false
          → region_at addr a.regions ≡ some (region_of i)
          → Ensures
              (λ _ t. Represents c t (spec (event os (Op.munmap addr i.len) s.sys) a))
              (munmap_stub os false addr i.len s)
      unfolding munmap_stub
      munmap_tracked i rest n e found =
          let m = first-Removed (has_ptr addr) s.maps n in
          let left = ap (without addr) (sym h.regions) ∙ (region_at-without addr m).1 in
          let marks = Removed-All (λ k. MarkOf (a.pending k.fd) k) m h.marks in
          let t : State W = record { sys = (os.munmap addr i.len s.sys).1; maps = rest } in
          let b : Files = record a { regions = without addr a.regions } in
          let t_b : Represents c t b = record {
            regions = sym left;
            marks = marks.1;
            closed = c.munmap_logs addr i.len s.sys ∙ h.closed;
          } in
          rw (e, n, found)
            (removed-Represents i t b i.want_close (a.pending i.fd) refl t_b refl marks.0
              (os.munmap addr i.len s.sys).0)

      munmap_untracked :
          (len : ℕ)
          → first_by_key (has_ptr addr) s.maps ≡ none
          → is_neg (os.munmap addr len s.sys).0 ≡ false
          → Ensures
              (λ _ t. Represents c t (spec (event os (Op.munmap addr len) s.sys) a))
              (munmap_stub os false addr len s)
      unfolding munmap_stub
      munmap_untracked len n e =
          let absent =
            ap (region_at addr) (sym h.regions)
            ∙ region_at-none addr s.maps (first_none (has_ptr addr) s.maps n) in
          rw (e, n, absent)
            (kept-Represents s a (os.munmap addr len s.sys).1 h (c.munmap_logs addr len s.sys))

      munmap_failed :
          (len : ℕ)
          → is_neg (os.munmap addr len s.sys).0 ≡ true
          → Ensures
              (λ _ t. Represents c t (spec (event os (Op.munmap addr len) s.sys) a))
              (munmap_stub os false addr len s)
      unfolding munmap_stub
      munmap_failed len e =
          rw e (kept-Represents s a (os.munmap addr len s.sys).1 h (c.munmap_logs addr len s.sys))

      munmap-Represents :
          (len : ℕ)
          → Legal os (Op.munmap addr len) a
          → Ensures
              (λ _ t. Represents c t (spec (event os (Op.munmap addr len) s.sys) a))
              (munmap_stub os false addr len s)
      munmap-Represents len legal = elim (Bool-cases (is_neg (os.munmap addr len s.sys).0)) [
        | inl e ↦ munmap_failed len e
        | inr e ↦ elim (Option-cases (first_by_key (has_ptr addr) s.maps)) [
          | inl n ↦ munmap_untracked len n e
          | inr ((i, rest), n) ↦
              let found =
                ap (region_at addr) (sym h.regions)
                ∙ (region_at-without addr (first-Removed (has_ptr addr) s.maps n)).0 in
              subst
                (λ (k : ℕ).
                  is_neg (os.munmap addr k s.sys).0 ≡ false
                  → Ensures (λ _ t. Represents c t (spec (event os (Op.munmap addr k) s.sys) a))
                      (munmap_stub os false addr k s))
                (sym (legal (region_of i) found)) (λ e'. munmap_tracked i rest n e' found) e
        ]
      ]

    pub step-Represents :
        ((t : Sys W) → (os.malloc t).0 ≡ true)
        → (op : Op) (s : State W) (a : Files) → Represents c s a
        → Legal os op a
        → Ensures (λ _ t. Represents c t (spec (event os op s.sys) a)) (step os false op s)
    unfolding step
    step-Represents memory (Op.mmap addr len prot flags fildes off) s a h legal =
        Ensures-bind (λ _ t. Represents c t _) (λ _ t. Represents c t _) _ (λ _. pure tt)
          (mmap-Represents s a h memory addr len prot flags fildes off legal) (λ _ t k. k)
    step-Represents memory (Op.munmap addr len) s a h legal =
        Ensures-bind (λ _ t. Represents c t _) (λ _ t. Represents c t _) _ (λ _. pure tt)
          (munmap-Represents addr s a h len legal) (λ _ t k. k)
    step-Represents memory (Op.close fd) s a h legal =
        Ensures-bind (λ _ t. Represents c t _) (λ _ t. Represents c t _) _ (λ _. pure tt)
          (close-Represents s a h fd) (λ _ t k. k)
    step-Represents memory (Op.fclose f) s a h legal =
        Ensures-bind (λ _ t. Represents c t _) (λ _ t. Represents c t _) _ (λ _. pure tt)
          (fclose-Represents s a h f) (λ _ t k. k)
