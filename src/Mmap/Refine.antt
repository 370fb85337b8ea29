-- ===== src/Mmap/Refine.antt =====
-- What emsup/mmap_hack.c is for, without its list: a program has mapped regions of files, and a close
-- that it asks for while the file has a region waits until the last one is unmapped. The regions and
-- the closes are read off the arguments of the calls and what the system answers to them. Refine/Step
-- shows that the calls do this, and Refine/Run that sequences of calls do.
mod Regions
mod Step
pub mod Run
pub mod Settles
mod Tests
use magiskboot_build.Prelude.{
  ℕ, ℤ, ◌==◌, eqb, is_neg, Bool, true, false, not, ◌&&◌, ◌||◌, Option, none, some, List, [], ◌∷◌,
  ◌≡◌, bit_and, if◌then◌else◌,
}
use magiskboot_build.Sys.{Sys, ok, abort}
use magiskboot_build.Mmap.Defs.{MapEntry, State, Posix}
use magiskboot_build.Mmap.Entries.{All}
use magiskboot_build.Mmap.Trace.{Op, step}

-- A region that the program has mapped.
pub record Region : Type 0 where
  pub start : ℕ
  pub size : ℕ
  pub file : ℤ

-- A call of the real `close` or of the real `fclose`.
pub data Closing : Type 0 where
  descriptor : ℤ → Closing
  stream : ℕ → Closing

-- The regions, newest first, the closes that wait, by their descriptors, and the calls that close a
-- file, newest first.
pub record Files : Type 0 where
  pub regions : List Region
  pub pending : ℤ → Option Closing
  pub closed : List Closing

pub data Event : Type 0 where
  nothing : Event
  map : Region → Event
  unmap : (addr : ℕ) → Event
  -- The close of a file, and of a stream without a descriptor.
  close : ℤ → Closing → Event
  close_other : Closing → Event

abbrev pub mapped : ℤ → List Region → Bool
mapped fd [] = false
mapped fd (r ∷ rs) = eqb r.file fd || mapped fd rs

-- The newest region that starts at an address, and the others.
abbrev pub region_at : ℕ → List Region → Option Region
region_at addr [] = none
region_at addr (r ∷ rs) = let older = region_at addr rs in if r.start == addr then some r else older

abbrev pub without : ℕ → List Region → List Region
without addr [] = []
without addr (r ∷ rs) = let others = without addr rs in if r.start == addr then rs else r ∷ others

abbrev pub put : ℤ → Option Closing → (ℤ → Option Closing) → ℤ → Option Closing
put fd o pending g = if eqb g fd then o else pending g

-- The close that waits after another one: once there is a stream, it is the one to be closed.
abbrev pub later : Closing → Option Closing → Closing
later (Closing.stream f) o = Closing.stream f
later (Closing.descriptor fd) none = Closing.descriptor fd
later (Closing.descriptor fd) (some (Closing.descriptor g)) = Closing.descriptor fd
later (Closing.descriptor fd) (some (Closing.stream f)) = Closing.stream f

-- What the loss of a region of `fd` leads to: the close that waits, if it was the last one.
abbrev pub made : ℤ → Option Closing → Files → Files
made fd none a = a
made fd (some x) a = record a { pending = put fd none a.pending; closed = x ∷ a.closed }

abbrev pub release : ℤ → Files → Files
release fd a = if mapped fd a.regions then a else made fd (a.pending fd) a

abbrev pub unmapped : ℕ → Option Region → Files → Files
unmapped addr none a = a
unmapped addr (some r) a = release r.file (record a { regions = without addr a.regions })

abbrev pub spec : Event → Files → Files
spec Event.nothing a = a
spec (Event.map r) a = record a { regions = r ∷ a.regions }
spec (Event.unmap addr) a = unmapped addr (region_at addr a.regions) a
spec (Event.close fd x) a =
    if mapped fd a.regions
    then record a { pending = put fd (some (later x (a.pending fd))) a.pending }
    else record a { closed = x ∷ a.closed }
spec (Event.close_other x) a = record a { closed = x ∷ a.closed }

abbrev pub spec_all : List Event → Files → Files
spec_all [] a = a
spec_all (e ∷ es) a = spec_all es (spec e a)

-- A shared mapping of a file that the program may write to.
abbrev pub writes_back : (prot flags : ℕ) (fildes : ℤ) → Bool
writes_back prot flags fildes =
    not (is_neg fildes) && not (bit_and prot 2 == 0) && not (bit_and flags 1 == 0)

-- The calls of the system that are not a close leave the record of the closes alone, which the world
-- keeps.
pub record Logs {W : Type 0} (os : Posix W) : Type 0 where
  pub log : W → List Closing
  pub real_close_logs :
      (fd : ℤ) (s : Sys W) → log (os.real_close fd s).1.world ≡ Closing.descriptor fd ∷ log s.world
  pub real_fclose_logs :
      (f : ℕ) (s : Sys W) → log (os.real_fclose f s).1.world ≡ Closing.stream f ∷ log s.world
  pub mmap_logs :
      (addr len prot flags : ℕ) (fildes off : ℤ) (s : Sys W)
      → log (os.mmap addr len prot flags fildes off s).1.world ≡ log s.world
  pub munmap_logs : (addr len : ℕ) (s : Sys W) → log (os.munmap addr len s).1.world ≡ log s.world
  pub malloc_logs : (s : Sys W) → log (os.malloc s).1.world ≡ log s.world
  pub fcntl_logs : (fd : ℤ) (s : Sys W) → log (os.fcntl_getfd fd s).1.world ≡ log s.world
  pub fileno_logs : (f : ℕ) (s : Sys W) → log (os.fileno f s).1.world ≡ log s.world
  pub fflush_logs : (f : ℕ) (s : Sys W) → log (os.fflush f s).1.world ≡ log s.world

abbrev pub region_of : MapEntry → Region
region_of i = record { start = i.ptr; size = i.len; file = i.fd }

abbrev pub regions_of : List MapEntry → List Region
regions_of [] = []
regions_of (i ∷ l) = region_of i ∷ regions_of l

-- The marks of an entry say which close of its file waits.
abbrev pub MarkOf : Option Closing → MapEntry → Type 0
MarkOf none i = (i.want_close ≡ false) × (i.have_fp ≡ false)
MarkOf (some (Closing.descriptor g)) i = (i.want_close ≡ true) × (i.have_fp ≡ false) × (g ≡ i.fd)
MarkOf (some (Closing.stream f)) i = (i.want_close ≡ true) × (i.have_fp ≡ true) × (i.fp ≡ some f)

module _ {W : Type 0} {os : Posix W} (c : Logs os) where
  -- The state of the code shows the files: the list is the regions, in the same order, each entry has
  -- the mark of the close that waits for its file, and the same closes were made.
  pub record Represents (s : State W) (a : Files) : Type 0 where
    pub regions : regions_of s.maps ≡ a.regions
    pub marks : All (λ i. MarkOf (a.pending i.fd) i) s.maps
    pub closed : c.log s.sys.world ≡ a.closed

-- What a call means, by its arguments and what the system answers.
module _ {W : Type 0} (os : Posix W) where
  abbrev pub event : Op → Sys W → Event
  event (Op.mmap addr len prot flags fildes off) s =
      if writes_back prot flags fildes
      then elim (os.mmap addr len prot flags fildes off s).0 [
        | none ↦ Event.nothing
        | some p ↦ Event.map (record { start = p; size = len; file = fildes })
      ]
      else Event.nothing
  event (Op.munmap addr len) s =
      if is_neg (os.munmap addr len s).0 then Event.nothing else Event.unmap addr
  event (Op.close fd) s =
      if is_neg (os.fcntl_getfd fd s).0
      then Event.nothing
      else Event.close fd (Closing.descriptor fd)
  event (Op.fclose none) s = Event.nothing
  event (Op.fclose (some f)) s =
      if is_neg (os.fileno f s).0
      then Event.close_other (Closing.stream f)
      else Event.close (os.fileno f s).0 (Closing.stream f)

  -- How a program has to use the calls: it does not map a file whose close waits, and it unmaps a
  -- region as a whole.
  abbrev pub Legal : Op → Files → Type 0
  Legal (Op.mmap addr len prot flags fildes off) a =
      writes_back prot flags fildes ≡ true → a.pending fildes ≡ none
  Legal (Op.munmap addr len) a = (r : Region) → region_at addr a.regions ≡ some r → len ≡ r.size
  Legal (Op.close fd) a = Unit
  Legal (Op.fclose f) a = Unit

  -- The events of a run, until it ends or is aborted.
  abbrev pub events : List Op → State W → List Event
  events [] s = []
  events (op ∷ ops) s =
      event op s.sys ∷ elim (step os false op s) [ ok _ t ↦ events ops t | abort ↦ [] ]

  abbrev pub LegalRun : List Op → State W → Files → Type 0
  LegalRun [] s a = Unit
  LegalRun (op ∷ ops) s a =
      Legal op a
      × ((t : State W) → step os false op s ≡ ok tt t → LegalRun ops t (spec (event op s.sys) a))
