-- ===== src/Mkdir/Tests.antt =====
-- `_mkdir_stub` on a system where `chmod` fails with EACCES, in a build with assertions. The world
-- says which directories there are.
use magiskboot_build.Prelude.{
  ℤ, pos, minus_one, ◌==◌, is_neg, Bool, true, false, not, ◌&&◌, ◌||◌, Bool-cases, ◌≡◌, ◌≢◌, refl,
  ap, arith, inl, inr, [], ◌∷◌, if◌then◌else◌,
}
use magiskboot_build.Errno.{no_error, eacces, eexist}
use magiskboot_build.Sys.{Sys, Ext, Post}
use magiskboot_build.Win.Api.{Api, Str}
use magiskboot_build.Win.Proc.{Proc}
use magiskboot_build.Win.Example.{api_over, example_proc}
use magiskboot_build.Mkdir.{mkdir_stub}
use magiskboot_build.Mkdir.Laws.{Directories, Outcome, mkdir_stub-Outcome}

abbrev same : Str → Str → Bool
same [] [] = true
same [] (e ∷ es) = false
same (c ∷ cs) [] = false
same (c ∷ cs) (e ∷ es) = (c == e) && same cs es

same_self : (a : Str) → same a a ≡ true
same_self [] = refl
same_self (c ∷ cs) = ground (arith, same_self cs)

same-eq : (a b : Str) → same a b ≡ true → a ≡ b
same-eq [] [] h = refl
same-eq [] (e ∷ es) h = absurd (ground arith)
same-eq (c ∷ cs) [] h = absurd (ground arith)
same-eq (c ∷ cs) (e ∷ es) h =
    let head : c ≡ e = ground arith in
    let tail : cs ≡ es = same-eq cs es (ground arith) in rw (head, tail) refl

not_same : (a b : Str) → a ≢ b → same a b ≡ false
not_same a b h = elim (Bool-cases (same a b)) [ inl e ↦ absurd (h (same-eq a b e)) | inr e ↦ e ]

abbrev Dirs : Type 0
Dirs = Str → Bool

abbrev make : Str → Ext Dirs ℤ
make path s = (
  if s.world path then minus_one else pos 0,
  if s.world path
      then record s { errno = eexist }
      else record s { world = λ d. same d path || s.world d },
)

abbrev remove : Str → Ext Dirs ℤ
remove path s = (pos 0, record s { world = λ d. not (same d path) && s.world d })

abbrev no_chmod : Api Dirs
no_chmod = record (api_over (λ path w. w)) {
  mkdir = make;
  rmdir = remove;
  chmod = λ path mode s. (minus_one, record s { errno = eacces });
}

make_fails :
    (path d : Str) (s : Sys Dirs)
    → is_neg (make path s).0 ≡ true
    → (make path s).1.world d ≡ s.world d
make_fails path d s h = elim (Bool-cases (s.world path)) [
  | inl e ↦ rw e refl
  | inr e ↦ absurd (ground (arith, rw e at h))
]

make_makes :
    (path : Str) (s : Sys Dirs)
    → is_neg (make path s).0 ≡ false
    → (s.world path ≡ false) × ((make path s).1.world path ≡ true)
make_makes path s h = elim (Bool-cases (s.world path)) [
  | inl e ↦ absurd (ground (arith, rw e at h))
  | inr e ↦ (e, rw (e, same_self path) refl)
]

make_other : (path d : Str) (s : Sys Dirs) → d ≢ path → (make path s).1.world d ≡ s.world d
make_other path d s h = elim (Bool-cases (s.world path)) [
  | inl e ↦ rw e refl
  | inr e ↦ rw (e, not_same d path h) refl
]

abbrev no_chmod-Directories : Directories no_chmod
no_chmod-Directories = record {
  exists = λ w d. w d;
  mkdir_fails = make_fails;
  mkdir_makes = make_makes;
  mkdir_other = make_other;
  chmod_keeps = λ path d mode s. refl;
  rmdir_removes = λ path s h. rw (same_self path) refl;
  rmdir_other = λ path d s h. rw (not_same d path h) refl;
}

abbrev no_dirs : Proc Dirs
no_dirs = record {
  sys = record { errno = no_error; last_error = 0; world = λ d. false };
  live = 0;
  cache = example_proc.cache;
}

-- "d" and "e"
abbrev dir : Str
dir = b'd' ∷ []

abbrev other : Str
other = b'e' ∷ []

mkdir_stub-Outcome_example :
    Post
      (λ r q. Outcome no_chmod-Directories false dir 7 no_dirs r q × (q.sys.world other ≡ false))
      (mkdir_stub no_chmod false dir 7 no_dirs)
mkdir_stub-Outcome_example =
    mkdir_stub-Outcome no_chmod-Directories false dir 7 other no_dirs
      (λ e. ground (arith, ap (same other) e))
