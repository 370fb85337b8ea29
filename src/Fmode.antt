-- ===== src/Fmode.antt =====
-- `__fmodeflags` and `__fixup_fmode` of winsup/file.c, and the streams that are opened by them. A
-- mode is the list of its bytes without the NUL.
pub mod Laws
mod Tests
use magiskboot_build.Prelude.{
  ℕ, ℤ, is_neg, ◌==◌, Bool, true, false, not, ◌||◌, Option, none, some, List, [], ◌∷◌, contains,
  bit_or, if◌then◌else◌,
}
use magiskboot_build.Errno.{einval}
use magiskboot_build.Sys.{M}
use magiskboot_build.Win.Api.{Api, Str}
use magiskboot_build.Win.Flags.{
  has, o_rdonly, o_wronly, o_rdwr, o_append, o_noinherit, o_creat, o_trunc, o_excl, o_binary,
  s_iread_all, s_iwrite_all,
}
use magiskboot_build.Win.Proc.{Proc, call, set_errno, pure, ◌>>=◌, ◌>>◌}
use magiskboot_build.Open.{wrap_open}

-- `*mode`, which is the NUL of an empty string.
abbrev pub first_byte : Str → ℕ
first_byte [] = 0
first_byte (c ∷ cs) = c

-- `strchr("rwa", c)`, which finds the NUL too.
unfoldable pub is_mode_byte : ℕ → Bool
is_mode_byte c = (c == b'r') || ((c == b'w') || ((c == b'a') || (c == 0)))

-- `if (b) flags |= flag`
abbrev pub add_flag : Bool → (flag flags : ℕ) → ℕ
add_flag b flag flags = if b then bit_or flags flag else flags

-- The flags, from the answers to the tests of the mode.
unfoldable pub flags_of : (plus excl cloexec r w a : Bool) → ℕ
flags_of plus excl cloexec r w a =
    let access = if plus then o_rdwr else if r then o_rdonly else o_wronly in
    let flags = add_flag cloexec o_noinherit (add_flag excl o_excl access) in
    bit_or (add_flag a o_append (add_flag w o_trunc (add_flag (not r) o_creat flags))) o_binary

-- `none`, which stands for -1, unless the first byte is allowed.
unfoldable pub checked_flags : (c : ℕ) (plus excl cloexec : Bool) → Option ℕ
unfolding is_mode_byte
checked_flags c plus excl cloexec =
    if is_mode_byte c
    then some (flags_of plus excl cloexec (c == b'r') (c == b'w') (c == b'a'))
    else none

unfoldable pub fmodeflags : Str → Option ℕ
unfolding checked_flags
fmodeflags mode =
    checked_flags (first_byte mode) (contains b'+' mode) (contains b'x' mode)
      (contains b'e' mode || contains b'N' mode)

-- The first byte of the new mode, if the flags have one.
unfoldable pub new_mode_byte : (flags : ℕ) → Option ℕ
new_mode_byte flags =
    if has flags o_rdwr
    then (if has flags o_append
        then some b'a'
        else if has flags o_trunc
        then some b'w'
        else if has flags o_creat
        then none
        else some b'r')
    else if has flags o_wronly
    then (if has flags o_trunc then some b'w' else if has flags o_append then some b'a' else none)
    else some b'r'

-- `plus`, and the bytes behind the first one.
abbrev pub rest_of_mode : (plus : Bool) → Str
rest_of_mode plus = if plus then b'+' ∷ b'b' ∷ [] else b'b' ∷ []

-- The new mode for the flags, if they have one.
unfoldable pub fixup_flags : (flags : ℕ) → Option Str
unfolding new_mode_byte
fixup_flags flags = elim (new_mode_byte flags) [
  | none ↦ none
  | some c ↦
      if c == b'r'
      then some (c ∷ rest_of_mode (has flags o_rdwr))
      else if has flags o_creat
      then some (c ∷ rest_of_mode (has flags o_rdwr))
      else none
]

unfoldable pub fixup_checked : Option ℕ → Option Str
unfolding fixup_flags
fixup_checked none = none
fixup_checked (some flags) = fixup_flags flags

unfoldable pub fixup_fmode : Str → Option Str
unfolding fmodeflags fixup_checked
fixup_fmode old_mode = fixup_checked (fmodeflags old_mode)

module _ {W : Type 0} (api : Api W) where
  unfoldable pub wrap_fdopen : ℤ → Str → M (Proc W) (Option ℕ)
  wrap_fdopen fd mode = elim (fixup_fmode mode) [
    | none ↦ set_errno einval >> pure none
    | some new_mode ↦ call (api.real_fdopen fd new_mode)
  ]

  unfoldable pub wrap_fopen : (pathname mode : Str) → M (Proc W) (Option ℕ)
  wrap_fopen pathname mode = elim (fmodeflags mode) [
    | none ↦ set_errno einval >> pure none
    | some flags ↦ (do
      fd ← wrap_open api pathname flags (if has flags o_creat then 0x1b6 else 0)
      if is_neg fd then pure none else wrap_fdopen fd mode)
  ]

  -- `S_IREAD` and `S_IWRITE` are 0x100 and 0x80.
  unfoldable pub wrap_creat : Str → (mode : ℕ) → M (Proc W) ℤ
  wrap_creat path mode =
      let fixed_mode =
        add_flag (has mode s_iwrite_all) 0x80 (add_flag (has mode s_iread_all) 0x100 0) in
      wrap_open api path (bit_or (bit_or o_creat o_trunc) o_rdwr) fixed_mode
