-- ===== src/Mmap/Counts.antt =====
-- What emsup/mmap_hack.c relies on of the system calls, and when a call of the program spares the
-- files that are still mapped.
use magiskboot_build.Prelude.{
  ℕ, ◌+◌, ℤ, eqb, eqb_iff, is_neg, true, false, none, some, List, ◌≡◌, ◌≢◌, arith, if◌then◌else◌,
}
use magiskboot_build.Sys.{Sys}
use magiskboot_build.Mmap.Defs.{MapEntry, State, Posix}
use magiskboot_build.Mmap.Entries.{tracked, All}

-- The documented part that the system calls play: each stream has a descriptor, and descriptors
-- are closed by `close` and `fclose` alone. `closes w fd` is how often that has happened to `fd`.
pub record Counts {W : Type 0} (os : Posix W) : Type 0 where
  pub closes : W → ℤ → ℕ
  pub stream_fd : ℕ → ℤ
  pub fileno_fd : (f : ℕ) (s : Sys W) → (os.fileno f s).0 ≡ stream_fd f
  pub real_close_counts :
      (fd g : ℤ) (s : Sys W)
      → closes (os.real_close fd s).1.world g ≡ closes s.world g + (if eqb fd g then 1 else 0)
  pub real_fclose_counts :
      (f : ℕ) (g : ℤ) (s : Sys W)
      → closes (os.real_fclose f s).1.world g
        ≡ closes s.world g + (if eqb (stream_fd f) g then 1 else 0)
  pub mmap_keeps :
      (addr len prot flags : ℕ) (fildes off g : ℤ) (s : Sys W)
      → closes (os.mmap addr len prot flags fildes off s).1.world g ≡ closes s.world g
  pub munmap_keeps :
      (addr len : ℕ) (g : ℤ) (s : Sys W)
      → closes (os.munmap addr len s).1.world g ≡ closes s.world g
  pub malloc_keeps : (g : ℤ) (s : Sys W) → closes (os.malloc s).1.world g ≡ closes s.world g
  pub fcntl_keeps :
      (fd g : ℤ) (s : Sys W) → closes (os.fcntl_getfd fd s).1.world g ≡ closes s.world g
  pub fileno_keeps :
      (f : ℕ) (g : ℤ) (s : Sys W) → closes (os.fileno f s).1.world g ≡ closes s.world g
  pub fflush_keeps :
      (f : ℕ) (g : ℤ) (s : Sys W) → closes (os.fflush f s).1.world g ≡ closes s.world g

-- A tracked mapping is of a valid descriptor, and a stream that it holds is one of that descriptor.
pub record Fits (stream_fd : ℕ → ℤ) (i : MapEntry) : Type 0 where
  pub valid : is_neg i.fd ≡ false
  pub stream : (f : ℕ) → i.fp ≡ some f → stream_fd f ≡ i.fd
  pub written : i.have_fp ≡ true → i.fp ≢ none

module _ {W : Type 0} {os : Posix W} (c : Counts os) where
  -- From a state, a later one: no file that is still tracked was closed, and the entries fit.
  pub record Guards (s t : State W) : Type 0 where
    pub fits : All (Fits c.stream_fd) t.maps
    pub spared :
        (fd : ℤ)
        → is_neg fd ≡ false
        → tracked fd t.maps ≡ true
        → c.closes t.sys.world fd ≡ c.closes s.sys.world fd

  pub guards :
      {s t : State W}
      → All (Fits c.stream_fd) t.maps
      → ((g : ℤ)
          → is_neg g ≡ false
          → tracked g t.maps ≡ true
          → c.closes t.sys.world g ≡ c.closes s.sys.world g)
      → Guards s t
  guards h k = record { fits = h; spared = k }

  pub real_close_spares :
      {fd g : ℤ} (s : Sys W)
      → eqb fd g ≡ false
      → c.closes (os.real_close fd s).1.world g ≡ c.closes s.world g
  real_close_spares {fd} {g} s e = ground (arith, c.real_close_counts fd g s)

  pub real_fclose_spares :
      {f : ℕ} {g : ℤ} (s : Sys W)
      → eqb (c.stream_fd f) g ≡ false
      → c.closes (os.real_fclose f s).1.world g ≡ c.closes s.world g
  real_fclose_spares {f} {g} s e = ground (arith, c.real_fclose_counts f g s)

pub tracked_ne :
    (fd g : ℤ) (l : List MapEntry) → tracked fd l ≡ false → tracked g l ≡ true → eqb fd g ≡ false
tracked_ne fd g l t u = ground (arith, eqb_iff fd g)

pub neg_ne : (fd g : ℤ) → is_neg fd ≡ true → is_neg g ≡ false → eqb fd g ≡ false
neg_ne fd g t u = ground (arith, eqb_iff fd g)
