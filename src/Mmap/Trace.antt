-- ===== src/Mmap/Trace.antt =====
-- Sequences of calls of emsup/mmap_hack.c, from a program that has no mapping yet.
use magiskboot_build.Prelude.{ℕ, ℤ, Bool, Option, List, [], ◌∷◌}
use magiskboot_build.Sys.{Sys, M, pure, ◌>>=◌, ◌>>◌, Post, Post-bind, Post-mono}
use magiskboot_build.Mmap.Defs.{State, Posix, mmap_stub, wrap_close, wrap_fclose, munmap_stub}
use magiskboot_build.Mmap.Entries.{All}
use magiskboot_build.Mmap.Counts.{Counts, Fits, Guards}
use magiskboot_build.Mmap.Safety.{mmap-Guards, close-Guards, fclose-Guards, munmap-Guards}

-- One call of the program.
pub data Op : Type 0 where
  mmap : (addr len prot flags : ℕ) (fildes off : ℤ) → Op
  munmap : (addr len : ℕ) → Op
  close : ℤ → Op
  fclose : Option ℕ → Op

module _ {W : Type 0} (os : Posix W) (ndebug : Bool) where
  unfoldable pub step : Op → M (State W) (Unit {0})
  step (mmap addr len prot flags fildes off) =
      mmap_stub os ndebug addr len prot flags fildes off >>= λ _. pure tt
  step (munmap addr len) = munmap_stub os ndebug addr len >>= λ _. pure tt
  step (close fd) = wrap_close os ndebug fd >>= λ _. pure tt
  step (fclose f) = wrap_fclose os ndebug f >>= λ _. pure tt

  unfoldable pub run : List Op → M (State W) (Unit {0})
  run [] = pure tt
  run (op ∷ ops) = step op >> run ops

abbrev pub start : {W : Type 0} → Sys W → State W
start sys = record { sys = sys; maps = [] }

module _ {W : Type 0} {os : Posix W} (c : Counts os) (ndebug : Bool) where
  pub step-Guards :
      (op : Op) (s : State W)
      → All (Fits c.stream_fd) s.maps
      → Post (λ _ t. Guards c s t) (step os ndebug op s)
  unfolding step
  step-Guards (mmap addr len prot flags fildes off) s h =
      Post-bind (λ _ t. Guards c s t) (λ _ t. Guards c s t) _ (λ _. pure tt)
        (mmap-Guards c ndebug addr len prot flags fildes off s h) (λ _ t g. g)
  step-Guards (munmap addr len) s h =
      Post-bind (λ _ t. Guards c s t) (λ _ t. Guards c s t) _ (λ _. pure tt)
        (munmap-Guards c ndebug addr len s h) (λ _ t g. g)
  step-Guards (close fd) s h =
      Post-bind (λ _ t. Guards c s t) (λ _ t. Guards c s t) _ (λ _. pure tt)
        (close-Guards c ndebug fd s h) (λ _ t g. g)
  step-Guards (fclose f) s h =
      Post-bind (λ _ t. Guards c s t) (λ _ t. Guards c s t) _ (λ _. pure tt)
        (fclose-Guards c ndebug f s h) (λ _ t g. g)

  run-Fits :
      (ops : List Op) (s : State W)
      → All (Fits c.stream_fd) s.maps
      → Post (λ _ t. All (Fits c.stream_fd) t.maps) (run os ndebug ops s)
  unfolding run
  run-Fits [] s h = h
  run-Fits (op ∷ ops) s h =
      Post-bind (λ _ t. Guards c s t) (λ _ u. All (Fits c.stream_fd) u.maps) (step os ndebug op s)
        (λ _. run os ndebug ops) (step-Guards op s h) (λ _ t g. run-Fits ops t g.fits)

  -- After any calls that a program makes, and in either build, one further call closes no
  -- descriptor of which a tracked mapping is left after it.
  pub run-step-Guards :
      (ops : List Op) (op : Op) (sys : Sys W)
      → Post
          (λ _ s. Post (λ _ t. Guards c s t) (step os ndebug op s))
          (run os ndebug ops (start sys))
  run-step-Guards ops op sys =
      Post-mono (λ _ s. All (Fits c.stream_fd) s.maps)
        (λ _ s. Post (λ _ t. Guards c s t) (step os ndebug op s)) (run os ndebug ops (start sys))
        (run-Fits ops (start sys) tt) (λ _ s h. step-Guards op s h)
