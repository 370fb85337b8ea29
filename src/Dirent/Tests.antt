-- ===== src/Dirent/Tests.antt =====
-- A directory with one entry, on the system of Win/Example.
use magiskboot_build.Prelude.{
  ℕ, ◌+◌, pos, true, false, none, some, [], ◌∷◌, replicate, bit_and, arith, ◌≡◌, ◌↔◌, refl, inl,
}
use mathlib.Core.Option.{some-injective}
use mathlib.Core.Path.{subst}
use magiskboot_build.Sys.{Sys, abort, Post, Ensures}
use magiskboot_build.Win.Flags.{s_ifmt}
use magiskboot_build.Win.Proc.{Proc}
use magiskboot_build.Win.Balance.{owned}
use magiskboot_build.Win.Example.{Opened, answers, dir_path, example_api, example_proc}
use magiskboot_build.Dirent.{Entry, DirentStub, DirStub, DirApi}
use magiskboot_build.Dirent.Open.{opendir_stub, fdopendir, closedir_stub}
use magiskboot_build.Dirent.Open.Laws.{Opens, opendir_stub-Opens, dir-live}
use magiskboot_build.Dirent.Read.{type_of_mode, readdir_stub}
use magiskboot_build.Dirent.Read.Types.{kind_of_type, type_of_mode_lem}
use magiskboot_build.Dirent.Read.Laws.{Named, Read, readdir_stub-Read, readdir_stub-none}
use magiskboot_build.Dirent.Seek.{seekdir_stub, rewinddir_stub}
use magiskboot_build.Dirent.Seek.Laws.{Positions, Rewound, seekdir_stub-rewinddir_stub}

-- The entry "ab".
abbrev entry : Entry
entry = record { d_ino = 0; d_reclen = 0; d_namlen = 2; d_name = b'a' ∷ b'b' ∷ [] }

-- `lseek` from the current position starts at 0.
abbrev example_dir : DirApi Opened
example_dir = record {
  opendir = λ path. answers (some 1);
  readdir = λ d. answers (some entry);
  closedir = λ d. answers (pos 0);
  rewinddir = λ d. answers tt;
  telldir = λ d. answers (pos 0);
  seekdir = λ d loc. answers tt;
  lseek = λ fd offset whence. answers offset;
}

abbrev stub : DirStub
stub = record { dirp = some 1; fd = pos 3 }

abbrev static_entry : DirentStub
static_entry = record {
  d_ino = 0;
  d_type = 0;
  d_reclen = 0;
  d_namlen = 0;
  d_name = replicate 260 0;
}

abbrev one_block : Proc Opened
one_block = record example_proc { live = 1 }

opendir_stub-Opens_example :
    Post
      (Opens example_api example_dir dir_path example_proc)
      (opendir_stub example_api example_dir dir_path example_proc)
opendir_stub-Opens_example = opendir_stub-Opens example_api example_dir dir_path example_proc

dir-live_example :
    Post (λ r q. q.live ≡ 1 + owned r) (opendir_stub example_api example_dir dir_path one_block)
    × Post (λ r q. q.live ≡ 1 + owned r) (fdopendir example_api example_dir false (pos 3) one_block)
    × Post (λ _ q. q.live + 1 ≡ 1) (closedir_stub example_api example_dir (some stub) one_block)
dir-live_example = dir-live example_api example_dir dir_path (pos 3) stub one_block (omega arith)

type_of_mode_lem_example : (type_of_mode 0x41ff ≡ 3) ↔ (bit_and 0x41ff s_ifmt ≡ kind_of_type 3)
type_of_mode_lem_example = type_of_mode_lem 0x41ff 3 (omega arith) (omega arith)

entry-Named : (d : ℕ) (s : Sys Opened) (e : Entry) → some entry ≡ some e → Named e
entry-Named d s e h = subst Named (some-injective _ _ h) (refl, refl, omega arith, omega arith)

readdir_stub-Read_example :
    Post
      (λ r q. Read example_api example_dir true (pos 3) 0 r)
      (readdir_stub example_api example_dir true (some stub) 0 static_entry example_proc)
readdir_stub-Read_example =
    readdir_stub-Read example_api example_dir entry-Named true stub 0 static_entry example_proc
      (omega arith)

readdir_stub-none_example :
    Post
      (λ r q. r ≡ none)
      (readdir_stub example_api example_dir false (some stub) 0 static_entry example_proc)
readdir_stub-none_example =
    readdir_stub-none example_api example_dir stub 0 static_entry example_proc (λ fd s. refl)

example_dir-Positions : Positions example_dir
example_dir-Positions = λ fd loc s. inl refl

seekdir_stub-rewinddir_stub_example :
    (seekdir_stub example_dir false (some stub) (pos 5) example_proc ≡ abort)
    × Ensures
        (Rewound example_dir (pos 3))
        (rewinddir_stub example_dir false (some stub) example_proc)
seekdir_stub-rewinddir_stub_example =
    seekdir_stub-rewinddir_stub example_dir stub 4 example_proc example_dir-Positions refl
      (λ s h. cc)
