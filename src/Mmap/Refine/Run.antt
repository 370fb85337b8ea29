-- ===== src/Mmap/Refine/Run.antt =====
-- Sequences of calls of emsup/mmap_hack.c keep track of the regions and make the closes that wait.
use magiskboot_build.Prelude.{none, List, [], ◌∷◌, true, false, ◌≡◌, refl}
use magiskboot_build.Sys.{Sys, Out, ok, abort, and_then, Ensures}
use magiskboot_build.Mmap.Defs.{State, Posix}
use magiskboot_build.Mmap.Trace.{Op, step, run, start}
use magiskboot_build.Mmap.Refine.{Files, spec, spec_all, Logs, Represents, event, events, LegalRun}
use magiskboot_build.Mmap.Refine.Step.{Closes, step-Represents}

-- At the start of the program: no regions, and the closes that the system has seen.
abbrev pub first_files : {W : Type 0} {os : Posix W} → Logs os → Sys W → Files
first_files c sys = record { regions = []; pending = λ fd. none; closed = c.log sys.world }

pub start-Represents :
    {W : Type 0} {os : Posix W} (c : Logs os) (sys : Sys W)
    → Represents c (start sys) (first_files c sys)
start-Represents c sys = record { regions = refl; marks = tt; closed = refl }

module _ {W : Type 0} {os : Posix W} (c : Logs os) (works : Closes os)
    (memory : (t : Sys W) → (os.malloc t).0 ≡ true) where
  -- When the calls of `close` and `fclose` succeed and memory is never short, in a build with
  -- assertions: suppose that the list shows the regions that the program has mapped and the closes
  -- that wait, and that the program maps no file whose close waits and unmaps a region as a whole. Then
  -- a run of calls comes to its end without a failed assertion, and there the list shows the regions,
  -- at the addresses that `mmap` gave, and the waiting closes that the calls lead to, and the real
  -- `close` and `fclose` were called as these say, each with its argument and in this order.
  pub run-Represents :
      (ops : List Op) (s : State W) (a : Files)
      → Represents c s a
      → LegalRun os ops s a
      → Ensures (λ _ t. Represents c t (spec_all (events os ops s) a)) (run os false ops s)
  unfolding run
  run-Represents [] s a h legal = h
  run-Represents (op ∷ ops) s a h (now, later) =
      rest (λ t k l. run-Represents ops t (spec (event os op s.sys) a) k l) (step os false op s)
        (step-Represents c works memory op s a h now) later
    where
      rest :
          ((t : State W)
            → Represents c t (spec (event os op s.sys) a)
            → LegalRun os ops t (spec (event os op s.sys) a)
            → Ensures
                (λ _ u. Represents c u (spec_all (events os ops t) (spec (event os op s.sys) a)))
                (run os false ops t))
          → (m : Out (State W) (Unit {0}))
          → Ensures (λ _ t. Represents c t (spec (event os op s.sys) a)) m
          → ((t : State W) → m ≡ ok tt t → LegalRun os ops t (spec (event os op s.sys) a))
          → Ensures
              (λ _ u. Represents c u (
                spec_all
                  (elim m [ ok _ t ↦ events os ops t | abort ↦ [] ])
                  (spec (event os op s.sys) a)))
              (and_then m (λ _. run os false ops))
      rest ih (ok _ t) k legal = ih t k (legal t refl)
      rest ih abort k legal = absurd k
