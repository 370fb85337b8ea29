-- ===== src/Mmap/Refine/Tests.antt =====
-- emsup/mmap_hack.c on a system whose world is the list of the calls that close, newest first, and
-- whose `mmap` gives another address than the one that it is asked for. The stream `f` is the one of
-- the descriptor `f`.
use magiskboot_build.Prelude.{
  ap, ◌+◌, ℕ, suc, ℤ, pos, eqb, true, false, Option, none, some, List, [], ◌∷◌, ◌≡◌, refl,
}
use magiskboot_build.Errno.{no_error}
use magiskboot_build.Sys.{Sys, ok, Ensures}
use magiskboot_build.Mmap.Defs.{
  MapEntry, State, Posix, new_entry, mmap_stub, wrap_fclose, munmap_stub, post_munmap_hook,
  close_entry,
}
use magiskboot_build.Mmap.Entries.{tracked}
use magiskboot_build.Mmap.Trace.{Op, step, run, start}
use magiskboot_build.Mmap.Refine.{
  Region, Closing, Files, spec_all, Logs, Represents, events, LegalRun, regions_of, put,
}
use magiskboot_build.Mmap.Refine.Step.{Closes}
use magiskboot_build.Mmap.Refine.Run.{first_files, start-Represents, run-Represents}
use magiskboot_build.Mmap.Refine.Settles.{times, waits, run-Settles}

abbrev Log : Type 0
Log = List Closing

abbrev note : Closing → Sys Log → ℤ × Sys Log
note x s = (pos 0, record s { world = x ∷ s.world })

abbrev posix : Posix Log
posix = record {
  mmap = λ addr len prot flags fildes off s. (some (addr + 100), s);
  munmap = λ addr len s. (pos 0, s);
  malloc = λ s. (true, s);
  fcntl_getfd = λ fd s. (pos 0, s);
  real_close = λ fd. note (Closing.descriptor fd);
  real_fclose = λ f. note (Closing.stream f);
  fileno = λ f s. (pos f, s);
  fflush = λ f s. (pos 0, s);
}

abbrev logs : Logs posix
logs = record {
  log = λ w. w;
  real_close_logs = λ fd s. refl;
  real_fclose_logs = λ f s. refl;
  mmap_logs = λ addr len prot flags fildes off s. refl;
  munmap_logs = λ addr len s. refl;
  malloc_logs = λ s. refl;
  fcntl_logs = λ fd s. refl;
  fileno_logs = λ f s. refl;
  fflush_logs = λ f s. refl;
}

works : Closes posix
works = record { real_close_ok = λ fd s. refl; real_fclose_ok = λ f s. refl }

abbrev sys : Sys Log
sys = record { errno = no_error; last_error = 0; world = [] }

-- A file is mapped, its stream is closed, and the region is unmapped.
abbrev session : List Op
session = Op.mmap 10 5 3 1 (pos 3) (pos 0) ∷ Op.fclose (some 3) ∷ Op.munmap 110 5 ∷ []

session_ends :
    run posix false session (start sys)
    ≡ ok tt (record { sys = record sys { world = Closing.stream 3 ∷ [] }; maps = [] })
unfolding run step mmap_stub wrap_fclose munmap_stub
session_ends = refl

session-LegalRun : LegalRun posix session (start sys) (first_files logs sys)
session-LegalRun = (
  λ _. refl,
  λ t _. (
    tt,
    λ u _. (λ r e. ap (λ (o : Option Region). elim o [ none ↦ 5 | some q ↦ q.size ]) e, λ v _. tt),
  ),
)

run-Represents_example :
    Ensures
      (λ _ t.
        Represents logs t (spec_all (events posix session (start sys)) (first_files logs sys)))
      (run posix false session (start sys))
run-Represents_example =
    run-Represents logs works (λ t. refl) session (start sys) (first_files logs sys)
      (start-Represents logs sys) session-LegalRun

-- Two regions of a file whose stream was closed, and one of another file.
abbrev held : ℕ → ℕ → MapEntry
held p n = record (new_entry p n (pos 3)) { want_close = true; fp = some 3; have_fp = true }

abbrev maps : List MapEntry
maps = held 110 5 ∷ new_entry 120 5 (pos 4) ∷ held 130 6 ∷ []

abbrev state : State Log
state = record { sys = sys; maps = maps }

abbrev files : Files
files = record {
  regions = regions_of maps;
  pending = put (pos 3) (some (Closing.stream 3)) (λ g. none);
  closed = [];
}

state-Represents : Represents logs state files
state-Represents = record {
  regions = refl;
  marks = ((refl, refl, refl), ((refl, refl), ((refl, refl, refl), tt)));
  closed = refl;
}

abbrev both : List Op
both = Op.munmap 110 5 ∷ Op.munmap 130 6 ∷ []

both-LegalRun : LegalRun posix both state files
both-LegalRun = (
  λ r e. ap (λ (o : Option Region). elim o [ none ↦ 5 | some q ↦ q.size ]) e,
  λ t _. (λ r e. ap (λ (o : Option Region). elim o [ none ↦ 6 | some q ↦ q.size ]) e, λ u _. tt),
)

others : (h : ℤ) → eqb h (pos 3) ≡ false → waits (Closing.stream 3) (files.pending h) ≡ false
others h e = rw e refl

run-Settles_example :
    Ensures
      (λ _ t.
        (tracked (pos 3) t.maps ≡ false)
        × (times (Closing.stream 3) t.sys.world ≡ suc (times (Closing.stream 3) sys.world)))
      (run posix false both state)
unfolding step munmap_stub post_munmap_hook close_entry
run-Settles_example =
    run-Settles logs works (λ t. refl) both state files (pos 3) (Closing.stream 3) state-Represents
      both-LegalRun refl refl others refl refl
