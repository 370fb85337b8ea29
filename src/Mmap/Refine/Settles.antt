-- ===== src/Mmap/Refine/Settles.antt =====
-- A close that emsup/mmap_hack.c has put off does come.
use magiskboot_build.Prelude.{
  ℕ, suc, ◌+◌, ◌==◌, ℤ, eqb, eqb_iff, ==_iff, Bool, true, false, not, ◌&&◌, ◌||◌, Bool-cases,
  Option, none, some, Option-cases, List, [], ◌∷◌, ◌≡◌, refl, sym, ap, ◌∙◌, inl, inr, arith,
  if◌then◌else◌,
}
use mathlib.Core.Path.{subst}
use magiskboot_build.Sys.{Sys, Ensures, Ensures-mono}
use magiskboot_build.Mmap.Defs.{State, Posix}
use magiskboot_build.Mmap.Entries.{tracked}
use magiskboot_build.Mmap.Trace.{Op, run}
use magiskboot_build.Mmap.Refine.{
  Region, Closing, Files, Event, mapped, region_at, without, put, later, spec, spec_all, Logs,
  Represents, events, LegalRun,
}
use magiskboot_build.Mmap.Refine.Regions.{tracked-mapped}
use magiskboot_build.Mmap.Refine.Step.{Closes}
use magiskboot_build.Mmap.Refine.Run.{run-Represents}

abbrev same : Closing → Closing → Bool
same (Closing.descriptor fd) (Closing.descriptor g) = eqb fd g
same (Closing.descriptor fd) (Closing.stream f) = false
same (Closing.stream f) (Closing.descriptor g) = false
same (Closing.stream f) (Closing.stream p) = f == p

same_refl : (x : Closing) → same x x ≡ true
same_refl (Closing.descriptor fd) = (eqb_iff fd fd).1 refl
same_refl (Closing.stream f) = (==_iff f f).1 refl

-- How often a call was made.
abbrev pub times : Closing → List Closing → ℕ
times x [] = 0
times x (y ∷ l) = times x l + (if same x y then 1 else 0)

-- Whether the call `x` is the one that waits.
abbrev pub waits : Closing → Option Closing → Bool
waits x none = false
waits x (some y) = same x y

later-waits :
    (x y : Closing) (o : Option Closing)
    → same x y ≡ false
    → waits x o ≡ false
    → waits x (some (later y o)) ≡ false
later-waits x (Closing.stream f) o e w = e
later-waits x (Closing.descriptor fd) none e w = e
later-waits x (Closing.descriptor fd) (some (Closing.descriptor g)) e w = e
later-waits x (Closing.descriptor fd) (some (Closing.stream f)) e w = w

-- The program does not close `g` again, nor ask for the call `x`.
abbrev pub spares : ℤ → Closing → List Event → Bool
spares g x [] = true
spares g x (Event.close fd y ∷ es) = not (eqb fd g) && not (same x y) && spares g x es
spares g x (Event.close_other y ∷ es) = not (same x y) && spares g x es
spares g x (e ∷ es) = spares g x es

without-mapped :
    (addr : ℕ) (g : ℤ) (rs : List Region) (r : Region)
    → region_at addr rs ≡ some r
    → mapped g rs ≡ (eqb r.file g || mapped g (without addr rs))
without-mapped addr g [] r e =
    let no : false ≡ true = ap (λ (o : Option Region). elim o [ none ↦ false | some k ↦ true ]) e in
    absurd (ground (arith, no))
without-mapped addr g (q ∷ rs) r e = elim (Bool-cases (q.start == addr)) [
  | inl here ↦
      let found : some q ≡ some r = rw here at e in
      let file : q.file ≡ r.file =
        ap (λ (o : Option Region). elim o [ none ↦ q.file | some k ↦ k.file ]) found in
      rw (here, file) refl
  | inr there ↦
      let found : region_at addr rs ≡ some r = rw there at e in
      rw there (ground (arith, without-mapped addr g rs r found))
]

module _ (g : ℤ) (x : Closing) (n : ℕ) where
  -- The call `x` waits for the last region of `g` and was made `n` times, or it waits no more and was
  -- made once more; for no other file does it wait.
  record Owed (a : Files) : Type 0 where
    sum : times x a.closed + (if waits x (a.pending g) then 1 else 0) ≡ suc n
    last : waits x (a.pending g) ≡ true → mapped g a.regions ≡ true
    others : (h : ℤ) → eqb h g ≡ false → waits x (a.pending h) ≡ false

  close-Owed :
      (fd : ℤ) (y : Closing) (a : Files)
      → eqb fd g ≡ false
      → same x y ≡ false
      → Owed a
      → Owed (spec (Event.close fd y) a)
  close-Owed fd y a other differs o =
      let not_g : eqb g fd ≡ false = ground (arith, eqb_iff g fd, eqb_iff fd g, other) in
      elim (Bool-cases (mapped fd a.regions)) [
        | inl held ↦ rw held (record {
          sum = rw not_g o.sum;
          last = rw not_g o.last;
          others = λ h e. elim (Bool-cases (eqb h fd)) [
            | inl at_fd ↦ rw at_fd (later-waits x y (a.pending fd) differs (o.others fd other))
            | inr away ↦ rw away (o.others h e)
          ];
        })
        | inr free ↦
            rw free (record {
              sum = rw differs (ground (arith, o.sum));
              last = o.last;
              others = o.others;
            })
      ]

  -- A region of `fd` is gone from `a`, with the regions `rs` left.
  module _ (fd : ℤ) (a : Files) (rs : List Region)
      (fewer : (h : ℤ) → mapped h a.regions ≡ (eqb fd h || mapped h rs)) (o : Owed a) where
    held-Owed : mapped fd rs ≡ true → Owed (record a { regions = rs })
    held-Owed held = record {
      sum = o.sum;
      last = λ w. elim (Bool-cases (eqb fd g)) [
        | inl e ↦ subst (λ h. mapped h rs ≡ true) ((eqb_iff fd g).0 e) held
        | inr e ↦ ground (arith, fewer g, o.last w, e)
      ];
      others = o.others;
    }

    none-Owed : a.pending fd ≡ none → Owed (record a { regions = rs })
    none-Owed p = record {
      sum = o.sum;
      last = λ w. elim (Bool-cases (eqb fd g)) [
        | inl e ↦
            let gone : waits x (a.pending g) ≡ false =
              ap (λ h. waits x (a.pending h)) (sym ((eqb_iff fd g).0 e)) ∙ ap (waits x) p in
            absurd (ground (arith, gone, w))
        | inr e ↦ ground (arith, fewer g, o.last w, e)
      ];
      others = o.others;
    }

    made-Owed :
        (y : Closing)
        → a.pending fd ≡ some y
        → Owed (record { regions = rs; pending = put fd none a.pending; closed = y ∷ a.closed })
    made-Owed y p = elim (Bool-cases (eqb fd g)) [
      | inl e ↦
          let here = (eqb_iff fd g).0 e in
          let at_g : eqb g fd ≡ true = (eqb_iff g fd).1 (sym here) in
          let was : waits x (a.pending g) ≡ same x y =
            ap (λ h. waits x (a.pending h)) (sym here) ∙ ap (waits x) p in
          record {
            sum = rw at_g (ground (arith, was, o.sum));
            last = rw at_g (λ w. absurd (ground (arith, w)));
            others = left;
          }
      | inr e ↦
          let away : eqb g fd ≡ false = ground (arith, eqb_iff g fd, eqb_iff fd g, e) in
          let unlike : same x y ≡ false = ap (waits x) (sym p) ∙ o.others fd e in
          record {
            sum = rw (away, unlike) (ground (arith, o.sum));
            last = rw away (λ w. ground (arith, fewer g, o.last w, e));
            others = left;
          }
    ]
      where
        left : (h : ℤ) → eqb h g ≡ false → waits x (put fd none a.pending h) ≡ false
        left h e = elim (Bool-cases (eqb h fd)) [ inl b ↦ rw b refl | inr b ↦ rw b (o.others h e) ]

  unmap-Owed : (addr : ℕ) (a : Files) → Owed a → Owed (spec (Event.unmap addr) a)
  unmap-Owed addr a o = elim (Option-cases (region_at addr a.regions)) [
    | inl e ↦ rw e o
    | inr (r, e) ↦
        let rs = without addr a.regions in
        let fewer = λ (h : ℤ). without-mapped addr h a.regions r e in
        rw e (elim (Bool-cases (mapped r.file rs)) [
          | inl held ↦ rw held (held-Owed r.file a rs fewer o held)
          | inr free ↦ elim (Option-cases (a.pending r.file)) [
            | inl p ↦ rw (free, p) (none-Owed r.file a rs fewer o p)
            | inr (y, p) ↦ rw (free, p) (made-Owed r.file a rs fewer o y p)
          ]
        ])
  ]

  events-Owed : (es : List Event) (a : Files) → spares g x es ≡ true → Owed a → Owed (spec_all es a)
  events-Owed [] a h o = o
  events-Owed (Event.nothing ∷ es) a h o = events-Owed es a h o
  events-Owed (Event.map r ∷ es) a h o =
      events-Owed es (spec (Event.map r) a) h
        (record { sum = o.sum; last = λ w. ground (arith, o.last w); others = o.others })
  events-Owed (Event.unmap addr ∷ es) a h o = events-Owed es _ h (unmap-Owed addr a o)
  events-Owed (Event.close fd y ∷ es) a h o =
      events-Owed es _ (ground (arith, h))
        (close-Owed fd y a (ground (arith, h)) (ground (arith, h)) o)
  events-Owed (Event.close_other y ∷ es) a h o =
      let differs : same x y ≡ false = ground (arith, h) in
      events-Owed es _ (ground (arith, h))
        (record { sum = rw differs (ground (arith, o.sum)); last = o.last; others = o.others })

module _ {W : Type 0} {os : Posix W} (c : Logs os) (works : Closes os)
    (memory : (t : Sys W) → (os.malloc t).0 ≡ true) where
  -- When the calls of `close` and `fclose` succeed and memory is never short, in a build with
  -- assertions: suppose that the list shows the program's regions and the closes that wait, that the
  -- call `x` waits for the regions of `g` and for those of no other file, and that `g` has a region.
  -- After a run of legal calls that do not close `g` again nor ask for `x`, and that unmap all regions
  -- of `g`, those that they map on the way included, no entry of `g` is left in the list, and the call
  -- `x` was made exactly once.
  pub run-Settles :
      (ops : List Op) (s : State W) (a : Files) (g : ℤ) (x : Closing)
      → Represents c s a
      → LegalRun os ops s a
      → a.pending g ≡ some x
      → mapped g a.regions ≡ true
      → ((h : ℤ) → eqb h g ≡ false → waits x (a.pending h) ≡ false)
      → spares g x (events os ops s) ≡ true
      → mapped g (spec_all (events os ops s) a).regions ≡ false
      → Ensures
          (λ _ t.
            (tracked g t.maps ≡ false)
            × (times x (c.log t.sys.world) ≡ suc (times x (c.log s.sys.world))))
          (run os false ops s)
  run-Settles ops s a g x h legal put_off held alone spared gone =
      let es = events os ops s in
      let n = times x (c.log s.sys.world) in
      let same_n : times x a.closed ≡ n = ap (times x) (sym h.closed) in
      let waits_now : waits x (a.pending g) ≡ true = ap (waits x) put_off ∙ same_refl x in
      let o =
        events-Owed g x n es a spared
          (record { sum = ground (arith, same_n, waits_now); last = λ _. held; others = alone }) in
      Ensures-mono (λ _ t. Represents c t (spec_all es a))
        (λ _ t. (tracked g t.maps ≡ false) × (times x (c.log t.sys.world) ≡ suc n))
        (run os false ops s) (run-Represents c works memory ops s a h legal)
        λ _ t k. (
          tracked-mapped g t.maps ∙ ap (mapped g) k.regions ∙ gone,
          ap (times x) k.closed ∙ ground (arith, o.sum, o.last, gone),
        )
