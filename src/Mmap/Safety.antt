-- ===== src/Mmap/Safety.antt =====
-- No call of emsup/mmap_hack.c closes a file of which a mapping is still tracked.
use magiskboot_build.Prelude.{
  ℕ, ℤ, eqb_iff, is_neg, ◌==◌, Bool, true, false, Option, none, some, List, ◌≡◌, refl, ◌∙◌, arith,
  if◌then◌else◌, Bool-cases, Option-cases, inl, inr,
}
use magiskboot_build.Sys.{Sys, pure, ◌>>◌, assert, Post, Post-bind, Post-assert}
use magiskboot_build.Mmap.Defs.{
  MapEntry, State, Posix, mmap_stub, wrap_close, wrap_fclose, munmap_stub, has_fd, has_ptr,
  mark_close, mark_fclose, new_entry, wants_delay, first_by_key, post_munmap_hook, close_entry,
}
use magiskboot_build.Mmap.Entries.{
  tracked, All, filter_flag, filter-All, Removed, first-Removed, first_none, Removed-All,
  All_tracked,
}
use magiskboot_build.Mmap.Counts.{
  Counts, Fits, Guards, guards, real_close_spares, real_fclose_spares, tracked_ne, neg_ne,
}

module _ {W : Type 0} {os : Posix W} (c : Counts os) (ndebug : Bool) where
  pub mmap-Guards :
      (addr len prot flags : ℕ) (fildes off : ℤ) (s : State W)
      → All (Fits c.stream_fd) s.maps
      → Post (λ _ t. Guards c s t) (mmap_stub os ndebug addr len prot flags fildes off s)
  unfolding mmap_stub
  mmap-Guards addr len prot flags fildes off s h =
      let keeps = λ (g : ℤ). c.mmap_keeps addr len prot flags fildes off g s.sys in
      let sys' : Sys W = (os.mmap addr len prot flags fildes off s.sys).1 in
      elim (Option-cases (os.mmap addr len prot flags fildes off s.sys).0) [
        | inl e ↦ rw e (guards c h (λ g _ _. keeps g))
        | inr (p, e) ↦ rw e (elim (Bool-cases (wants_delay prot flags fildes)) [
          | inl d ↦ rw d (elim (Bool-cases (os.malloc sys').0) [
            | inl got ↦
                rw got (guards c (new_entry-Fits d, h) (λ g _ _. c.malloc_keeps g sys' ∙ keeps g))
            | inr failed ↦ rw failed tt
          ])
          | inr d ↦ rw d (guards c h (λ g _ _. keeps g))
        ])
      ]
    where
      new_entry-Fits :
          {p n : ℕ} → wants_delay prot flags fildes ≡ true → Fits c.stream_fd (new_entry p n fildes)
      new_entry-Fits d = record { valid = ground arith; stream = λ f e. cc; written = λ e. cc }

  pub close-Guards :
      (fd : ℤ) (s : State W)
      → All (Fits c.stream_fd) s.maps
      → Post (λ _ t. Guards c s t) (wrap_close os ndebug fd s)
  unfolding wrap_close
  close-Guards fd s h =
      let keeps = λ (g : ℤ). c.fcntl_keeps fd g s.sys in
      let sys' : Sys W = (os.fcntl_getfd fd s.sys).1 in
      elim (Bool-cases (is_neg (os.fcntl_getfd fd s.sys).0)) [
        | inl e ↦ rw e (guards c h (λ g _ _. keeps g))
        | inr e ↦ rw e (elim (Bool-cases (tracked fd s.maps)) [
          | inl t ↦
              rw (filter_flag fd mark_close (λ i. refl) s.maps, t)
                (guards c
                  (filter-All fd mark_close (λ i. refl) _ _ s.maps
                    (λ i _ f. record { valid = f.valid; stream = f.stream; written = f.written })
                    (λ i _ f. f) h)
                  (λ g _ _. keeps g))
          | inr t ↦
              rw (filter_flag fd mark_close (λ i. refl) s.maps, t)
                (guards c h
                  λ g _ still. real_close_spares c sys' (tracked_ne fd g s.maps t still) ∙ keeps g)
        ])
      ]

  pub fclose-Guards :
      (f : Option ℕ) (s : State W)
      → All (Fits c.stream_fd) s.maps
      → Post (λ _ t. Guards c s t) (wrap_fclose os ndebug f s)
  unfolding wrap_fclose
  fclose-Guards none s h = guards c h (λ g _ _. refl)
  fclose-Guards (some f) s h =
      let keeps = λ (g : ℤ). c.fileno_keeps f g s.sys in
      let sys' : Sys W = (os.fileno f s.sys).1 in
      rw (c.fileno_fd f s.sys) (elim (Bool-cases (is_neg (c.stream_fd f))) [
        | inl e ↦ rw e (guards c h λ g ge _. real_fclose_spares c sys' (neg_ne _ g e ge) ∙ keeps g)
        | inr e ↦ rw e (elim (Bool-cases (tracked (c.stream_fd f) s.maps)) [
          | inl t ↦
              rw (filter_flag (c.stream_fd f) (mark_fclose f) (λ i. refl) s.maps, t)
                (guards c
                  (filter-All (c.stream_fd f) (mark_fclose f) (λ i. refl) _ _ s.maps
                    (λ i same fit. record {
                      valid = fit.valid;
                      stream = λ x w. cc ((eqb_iff i.fd (c.stream_fd f)).0 same);
                      written = λ _ x. cc;
                    })
                    (λ i _ fit. fit) h)
                  (λ g _ _. c.fflush_keeps f g sys' ∙ keeps g))
          | inr t ↦
              rw (filter_flag (c.stream_fd f) (mark_fclose f) (λ i. refl) s.maps, t)
                (guards c h
                  λ g _ still. real_fclose_spares c sys' (tracked_ne _ g s.maps t still) ∙ keeps g)
        ])
      ])

  close_entry-Guards :
      (i : MapEntry) (s t : State W)
      → Fits c.stream_fd i
      → tracked i.fd t.maps ≡ false
      → Guards c s t
      → Post (λ _ u. Guards c s u) (close_entry os ndebug i t)
  unfolding close_entry
  close_entry-Guards i s t f gone g = elim (Bool-cases i.have_fp) [
    | inl e ↦ elim (Option-cases i.fp) [
      | inl n ↦ absurd (f.written e n)
      | inr (p, n) ↦
          rw (e, n)
            (Post-assert (Guards c s) ndebug _ t g (
              guards c g.fits λ fd v still.
                real_fclose_spares c t.sys
                  (rw (f.stream p n) (tracked_ne i.fd fd t.maps gone still))
                ∙ g.spared fd v still))
    ]
    | inr e ↦ rw e (
        Post-assert (Guards c s) ndebug _ t g (
          guards c g.fits λ fd v still.
            real_close_spares c t.sys (tracked_ne i.fd fd t.maps gone still) ∙ g.spared fd v still))
  ]

  hook-Guards :
      (i : MapEntry) (len : ℕ) (s t : State W)
      → Fits c.stream_fd i
      → Guards c s t
      → Post (λ _ u. Guards c s u) (post_munmap_hook os ndebug i len t)
  unfolding post_munmap_hook
  hook-Guards i len s t f g =
      Post-bind (λ _ u. Guards c s u) (λ _ u. Guards c s u) (assert ndebug (pure (i.len == len)) t)
        _ (Post-assert (Guards c s) ndebug (pure (i.len == len)) t g g)
        λ _ u gu. elim (Option-cases (first_by_key (has_fd i.fd) u.maps)) [
          | inl e ↦ rw e (
              close_entry-Guards i s u f
                (All_tracked i.fd u.maps (first_none (has_fd i.fd) u.maps e)) gu)
          | inr (j, e) ↦ rw e (Post-assert (Guards c s) ndebug (pure j.0.want_close) u gu gu)
        ]

  pub munmap-Guards :
      (addr len : ℕ) (s : State W)
      → All (Fits c.stream_fd) s.maps
      → Post (λ _ t. Guards c s t) (munmap_stub os ndebug addr len s)
  unfolding munmap_stub
  munmap-Guards addr len s h =
      let keeps = λ (g : ℤ). c.munmap_keeps addr len g s.sys in
      let same : Guards c s (record s { sys = (os.munmap addr len s.sys).1 }) =
        guards c h (λ g _ _. keeps g) in
      elim (Bool-cases (is_neg (os.munmap addr len s.sys).0)) [
        | inl e ↦ rw e same
        | inr e ↦ rw e (elim (Option-cases (first_by_key (has_ptr addr) s.maps)) [
          | inl gone ↦ rw gone same
          | inr ((i, rest), found) ↦
              rw found (unmapped i rest (first-Removed (has_ptr addr) s.maps found))
        ])
      ]
    where
      unmapped :
          (i : MapEntry) (rest : List MapEntry)
          → Removed (has_ptr addr) s.maps i rest
          → Post
              (λ _ t. Guards c s t)
              (((if i.want_close then post_munmap_hook os ndebug i len else pure tt)
                  >> pure (os.munmap addr len s.sys).0)
                (record { sys = (os.munmap addr len s.sys).1; maps = rest }))
      unmapped i rest m =
          let fit = Removed-All (Fits c.stream_fd) m h in
          let left : Guards c s (record { sys = (os.munmap addr len s.sys).1; maps = rest }) =
            guards c fit.1 λ g v still. c.munmap_keeps addr len g s.sys in
          elim (Bool-cases i.want_close) [
            | inl e ↦ rw e (
                Post-bind (λ _ u. Guards c s u) (λ _ u. Guards c s u)
                  (post_munmap_hook os ndebug i len _) (λ _. pure (os.munmap addr len s.sys).0)
                  (hook-Guards i len s _ fit.0 left) (λ _ u g. g))
            | inr e ↦ rw e left
          ]
