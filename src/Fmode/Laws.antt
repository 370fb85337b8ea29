-- ===== src/Fmode/Laws.antt =====
-- The modes that winsup/file.c accepts and makes.
use magiskboot_build.Prelude.{
  ℕ, ◌+◌, pos, ◌==◌, ==_iff, Bool, true, false, ◌||◌, Bool-cases, Option, none, some, Option-cases,
  [], ◌∷◌, contains, ◌≡◌, refl, sym, ◌∙◌, inl, inr, if◌then◌else◌,
}
use magiskboot_build.Errno.{einval}
use magiskboot_build.Sys.{ok}
use magiskboot_build.Win.Api.{Api, Str}
use magiskboot_build.Win.Proc.{Proc, steps}
use magiskboot_build.Win.Flags.{o_wronly, o_creat, o_binary}
use magiskboot_build.Open.{wrap_open}
use magiskboot_build.Fmode.{
  first_byte, is_mode_byte, flags_of, fmodeflags, checked_flags, fixup_checked, new_mode_byte,
  rest_of_mode, fixup_flags, fixup_fmode, wrap_fdopen, wrap_fopen,
}

-- What the flags of a mode that begins with `r`, `w`, `a` or another byte lead to.
fixup_flags-flags_of :
    (plus excl cloexec : Bool)
    → (fixup_flags (flags_of plus excl cloexec true false false) ≡ some (b'r' ∷ rest_of_mode plus))
      × (fixup_flags (flags_of plus excl cloexec false true false)
          ≡ some (b'w' ∷ rest_of_mode plus))
      × (fixup_flags (flags_of plus excl cloexec false false true)
          ≡ some (b'a' ∷ rest_of_mode plus))
      × (fixup_flags (flags_of plus excl cloexec false false false) ≡ none)
unfolding fixup_flags new_mode_byte flags_of
fixup_flags-flags_of true true true = (refl, refl, refl, refl)
fixup_flags-flags_of true true false = (refl, refl, refl, refl)
fixup_flags-flags_of true false true = (refl, refl, refl, refl)
fixup_flags-flags_of true false false = (refl, refl, refl, refl)
fixup_flags-flags_of false true true = (refl, refl, refl, refl)
fixup_flags-flags_of false true false = (refl, refl, refl, refl)
fixup_flags-flags_of false false true = (refl, refl, refl, refl)
fixup_flags-flags_of false false false = (refl, refl, refl, refl)

-- The first byte of a mode, if it is `r`, `w` or `a`, then a `+` if the mode has one, and a `b`.
pub normal : (c : ℕ) (plus : Bool) → Option Str
normal c plus =
    if (c == b'r') || ((c == b'w') || (c == b'a')) then some (c ∷ rest_of_mode plus) else none

checked-normal :
    (c : ℕ) (plus excl cloexec : Bool)
    → fixup_checked (checked_flags c plus excl cloexec) ≡ normal c plus
unfolding fixup_checked checked_flags is_mode_byte normal
checked-normal c plus excl cloexec =
    let all = fixup_flags-flags_of plus excl cloexec in
    elim (Bool-cases (c == b'r')) [
      | inl r ↦ rw ((==_iff c b'r').0 r) all.0
      | inr nr ↦ elim (Bool-cases (c == b'w')) [
        | inl w ↦ rw ((==_iff c b'w').0 w) all.1
        | inr nw ↦ elim (Bool-cases (c == b'a')) [
          | inl a ↦ rw ((==_iff c b'a').0 a) all.2
          | inr na ↦ elim (Bool-cases (c == 0)) [
            | inl end ↦ rw (nr, nw, na, end) all.3
            | inr other ↦ rw (nr, nw, na, other) refl
          ]
        ]
      ]
    ]

checked_mode-normal :
    (mode : Str) → fixup_fmode mode ≡ normal (first_byte mode) (contains b'+' mode)
unfolding fixup_fmode fmodeflags
checked_mode-normal mode =
    checked-normal (first_byte mode) (contains b'+' mode) (contains b'x' mode)
      (contains b'e' mode || contains b'N' mode)

settled :
    (m new : Str)
    → normal (first_byte m) (contains b'+' m) ≡ some m
    → some m ≡ some new
    → normal (first_byte new) (contains b'+' new) ≡ some new
settled m new e h = cc

refused :
    (c : ℕ) (plus : Bool)
    → (c == b'r') ≡ false
    → (c == b'w') ≡ false
    → (c == b'a') ≡ false
    → normal c plus ≡ none
unfolding normal
refused c plus nr nw na = rw (nr, nw, na) refl

-- A new mode for each first byte.
normal-fixed :
    (plus : Bool)
    → (normal (first_byte (b'r' ∷ rest_of_mode plus)) (contains b'+' (b'r' ∷ rest_of_mode plus))
        ≡ some (b'r' ∷ rest_of_mode plus))
      × (normal (first_byte (b'w' ∷ rest_of_mode plus)) (contains b'+' (b'w' ∷ rest_of_mode plus))
          ≡ some (b'w' ∷ rest_of_mode plus))
      × (normal (first_byte (b'a' ∷ rest_of_mode plus)) (contains b'+' (b'a' ∷ rest_of_mode plus))
          ≡ some (b'a' ∷ rest_of_mode plus))
unfolding normal
normal-fixed true = (refl, refl, refl)
normal-fixed false = (refl, refl, refl)

normal-again :
    (c : ℕ) (plus : Bool) (new : Str)
    → normal c plus ≡ some new
    → normal (first_byte new) (contains b'+' new) ≡ some new
unfolding normal
normal-again c plus new h = elim (Bool-cases (c == b'r')) [
  | inl r ↦ settled _ new (normal-fixed plus).0 (rw ((==_iff c b'r').0 r) at h)
  | inr nr ↦ elim (Bool-cases (c == b'w')) [
    | inl w ↦ settled _ new (normal-fixed plus).1 (rw ((==_iff c b'w').0 w) at h)
    | inr nw ↦ elim (Bool-cases (c == b'a')) [
      | inl a ↦ settled _ new (normal-fixed plus).2 (rw ((==_iff c b'a').0 a) at h)
      | inr na ↦ absurd (none_some (sym (refused c plus nr nw na) ∙ h))
    ]
  ]
]
  where
    none_some : {m : Str} → none ≡ some m → ⊥
    none_some e = cc

fixup_fmode-again : (mode new : Str) → fixup_fmode mode ≡ some new → fixup_fmode new ≡ some new
fixup_fmode-again mode new h =
    checked_mode-normal new
    ∙ normal-again (first_byte mode) (contains b'+' mode) new (sym (checked_mode-normal mode) ∙ h)

-- The fix of the mode that a fix gave, if it gave one.
abbrev pub fix_again : Option Str → Option Str
fix_again none = none
fix_again (some new) = fixup_fmode new

-- For every mode: the new mode is the first byte of the old one, a `+` if the old one has one, and
-- a `b`, when that byte is `r`, `w` or `a`; any other mode, the empty one among them, is refused. The
-- fix of a fixed mode is that mode.
pub fixup_fmode-normal :
    (mode : Str)
    → (fixup_fmode mode ≡ normal (first_byte mode) (contains b'+' mode))
      × (fix_again (fixup_fmode mode) ≡ fixup_fmode mode)
fixup_fmode-normal mode = (
  checked_mode-normal mode,
  elim (Option-cases (fixup_fmode mode)) [
    | inl refused_mode ↦ rw refused_mode refl
    | inr (new, fixed) ↦ rw fixed (fixup_fmode-again mode new fixed)
  ],
)

-- With the empty mode, `fopen` opens the path for writing and creates it, and when that gives a
-- descriptor it returns NULL with the error EINVAL and leaves the descriptor open: nothing but
-- `errno` is changed after the call of `open`.
pub wrap_fopen-empty :
    {W : Type 0} (api : Api W) (pathname : Str) (fd : ℕ) (p q : Proc W)
    → wrap_open api pathname (o_wronly + o_creat + o_binary) 0x1b6 p ≡ ok (pos fd) q
    → wrap_fopen api pathname [] p ≡ ok none (record q { sys = record (q.sys) { errno = einval } })
unfolding wrap_fopen wrap_fdopen fixup_fmode fmodeflags checked_flags is_mode_byte flags_of
    fixup_checked fixup_flags new_mode_byte steps
wrap_fopen-empty api pathname fd p q h = rw h refl
