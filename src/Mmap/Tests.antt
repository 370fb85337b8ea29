-- ===== src/Mmap/Tests.antt =====
-- emsup/mmap_hack.c on a system whose world is the list of the descriptors closed so far, newest
-- first. The stream `f` is the one of the descriptor `f`.
use magiskboot_build.Prelude.{
  ℕ, ◌+◌, ℤ, pos, eqb, Bool, true, false, ◌≡◌, none, some, List, [], ◌∷◌, refl, if◌then◌else◌,
}
use magiskboot_build.Errno.{no_error}
use magiskboot_build.Sys.{Sys, ok, Post, Ensures}
use magiskboot_build.Mmap.Defs.{
  MapEntry, State, Posix, mmap_stub, wrap_close, wrap_fclose, munmap_stub, new_entry,
}
use magiskboot_build.Mmap.Entries.{All, here}
use magiskboot_build.Mmap.Counts.{Counts, Fits, Guards}
use magiskboot_build.Mmap.Trace.{Op, step, run, start, run-step-Guards}
use magiskboot_build.Mmap.Delay.{Succeeds, Closed, due, munmap_stub-Closed}
use magiskboot_build.Mmap.Drain.{unmap_all, owed, unmap_all-Closed}
use magiskboot_build.Mmap.Deferred.{Deferred, wrap_close-Deferred, wrap_fclose-Deferred}

abbrev pub Log : Type 0
Log = List ℤ

abbrev note_close : ℤ → Sys Log → ℤ × Sys Log
note_close fd s = (pos 0, record s { world = fd ∷ s.world })

abbrev pub posix : Posix Log
posix = record {
  mmap = λ addr len prot flags fildes off s. (some (addr + 100), s);
  munmap = λ addr len s. (pos 0, s);
  malloc = λ s. (true, s);
  fcntl_getfd = λ fd s. (pos 0, s);
  real_close = note_close;
  real_fclose = λ f. note_close (pos f);
  fileno = λ f s. (pos f, s);
  fflush = λ f s. (pos 0, s);
}

abbrev times : Log → ℤ → ℕ
times [] g = 0
times (fd ∷ w) g = times w g + (if eqb fd g then 1 else 0)

abbrev pub counts : Counts posix
counts = record {
  closes = times;
  stream_fd = pos;
  fileno_fd = λ f s. refl;
  real_close_counts = λ fd g s. refl;
  real_fclose_counts = λ f g s. refl;
  mmap_keeps = λ addr len prot flags fildes off g s. refl;
  munmap_keeps = λ addr len g s. refl;
  malloc_keeps = λ g s. refl;
  fcntl_keeps = λ fd g s. refl;
  fileno_keeps = λ f g s. refl;
  fflush_keeps = λ f g s. refl;
}

pub works : Succeeds posix
works = record {
  munmap_ok = λ addr len s. refl;
  real_close_ok = λ fd s. refl;
  real_fclose_ok = λ f s. refl;
}

abbrev pub sys : Sys Log
sys = record { errno = no_error; last_error = 0; world = [] }

-- Two mappings of descriptor 3 and one of descriptor 4.
abbrev mapped : List MapEntry
mapped = new_entry 10 5 (pos 3) ∷ new_entry 20 5 (pos 4) ∷ new_entry 30 6 (pos 3) ∷ []

abbrev pub first : MapEntry
first = record (new_entry 10 5 (pos 3)) { want_close = true }

abbrev pub last : MapEntry
last = record (new_entry 30 6 (pos 3)) { want_close = true }

abbrev pub marked : List MapEntry
marked = first ∷ new_entry 20 5 (pos 4) ∷ last ∷ []

abbrev pub state : List MapEntry → State Log
state l = record { sys = sys; maps = l }

abbrev three : ℤ → Bool
three g = eqb g (pos 3)

abbrev nobody : ℤ → Bool
nobody g = false

close_marks : wrap_close posix false (pos 3) (state mapped) ≡ ok (pos 0) (state marked)
unfolding wrap_close
close_marks = refl

session :
    run posix false
      (Op.mmap 10 5 3 1 (pos 3) (pos 0) ∷ Op.close (pos 3) ∷ Op.munmap 110 5 ∷ [])
      (start sys)
    ≡ ok tt (record { sys = record sys { world = pos 3 ∷ [] }; maps = [] })
unfolding run step mmap_stub wrap_close munmap_stub
session = refl

pub fits : All (Fits pos) marked
fits = (
  record { valid = refl; stream = λ f e. cc; written = λ e. cc },
  (
    record { valid = refl; stream = λ f e. cc; written = λ e. cc },
    (record { valid = refl; stream = λ f e. cc; written = λ e. cc }, tt),
  ),
)

run-step-Guards_example :
    Post
      (λ _ s. Post (λ _ t. Guards counts s t) (step posix false (Op.munmap 110 5) s))
      (run posix false (Op.mmap 10 5 3 1 (pos 3) (pos 0) ∷ Op.close (pos 3) ∷ []) (start sys))
run-step-Guards_example =
    run-step-Guards counts false (Op.mmap 10 5 3 1 (pos 3) (pos 0) ∷ Op.close (pos 3) ∷ [])
      (Op.munmap 110 5) sys

munmap_stub-Closed_example :
    Ensures
      (λ r t.
        (r ≡ pos 0)
        × Closed counts
            (state marked)
            (new_entry 20 5 (pos 4) ∷ last ∷ [])
            (λ g. due false (pos 3) g (new_entry 20 5 (pos 4) ∷ last ∷ []))
            t)
      (munmap_stub posix false 10 5 (state marked))
munmap_stub-Closed_example =
    munmap_stub-Closed counts works three false 10 (state marked) first
      (new_entry 20 5 (pos 4) ∷ last ∷ []) (here refl) fits (refl, (refl, (refl, tt))) refl

unmap_all-Closed_example :
    Ensures
      (λ _ t. Closed counts (state marked) [] (owed three marked) t)
      (unmap_all posix false marked (state marked))
unmap_all-Closed_example =
    unmap_all-Closed counts works three (state marked) fits (refl, (refl, (refl, tt)))

wrap_close-Deferred_example :
    Ensures
      (λ r t. Deferred counts nobody none (pos 3) (state mapped) r t)
      (wrap_close posix false (pos 3) (state mapped))
wrap_close-Deferred_example =
    wrap_close-Deferred counts nobody false (pos 3) (state mapped) refl refl
      (refl, (refl, (refl, tt)))

wrap_fclose-Deferred_example :
    Ensures
      (λ r t. Deferred counts nobody (some 3) (pos 3) (state mapped) r t)
      (wrap_fclose posix false (some 3) (state mapped))
wrap_fclose-Deferred_example =
    wrap_fclose-Deferred counts nobody false 3 (state mapped) refl refl (refl, (refl, (refl, tt)))
