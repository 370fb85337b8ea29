-- ===== src/Fmode/Tests.antt =====
-- Modes, and streams on the system of Win/Example.
use magiskboot_build.Prelude.{◌+◌, pos, minus_one, none, some, [], ◌∷◌, contains, ◌≡◌, refl}
use magiskboot_build.Errno.{einval}
use magiskboot_build.Sys.{ok}
use magiskboot_build.Win.Api.{Str}
use magiskboot_build.Win.Flags.{o_wronly, o_creat, o_binary}
use magiskboot_build.Win.Proc.{Proc, steps}
use magiskboot_build.Win.Example.{Opened, example_api, example_proc}
use magiskboot_build.Fd.Cache.{fd_cache_oflag, store_oflag}
use magiskboot_build.Open.{wrap_open, open_impl}
use magiskboot_build.Fmode.{
  first_byte, fixup_fmode, fmodeflags, checked_flags, is_mode_byte, flags_of, fixup_checked,
  fixup_flags, new_mode_byte, wrap_fopen,
}
use magiskboot_build.Fmode.Laws.{normal, fix_again, fixup_fmode-normal, wrap_fopen-empty}

-- "wx+"
abbrev exclusive : Str
exclusive = b'w' ∷ b'x' ∷ b'+' ∷ []

-- "w+b"
abbrev plain : Str
plain = b'w' ∷ b'+' ∷ b'b' ∷ []

fixup_fmode-normal_example :
    (fixup_fmode exclusive ≡ normal (first_byte exclusive) (contains b'+' exclusive))
    × (fix_again (fixup_fmode exclusive) ≡ fixup_fmode exclusive)
fixup_fmode-normal_example = fixup_fmode-normal exclusive

fixed : fixup_fmode exclusive ≡ some plain
unfolding fixup_fmode fmodeflags checked_flags is_mode_byte flags_of fixup_checked fixup_flags
    new_mode_byte
fixed = refl

abbrev name : Str
name = b'a' ∷ []

-- The state after the call of `open`, which gives the descriptor 4.
abbrev opened : Proc Opened
opened = record example_proc {
  sys = record (example_proc.sys) { world = name ∷ [] };
  cache = record {
    oflags = minus_one ∷ minus_one ∷ minus_one ∷ minus_one ∷ pos 0 ∷ minus_one ∷ [];
    max_size = 5;
  };
}

opens :
    wrap_open example_api name (o_wronly + o_creat + o_binary) 0x1b6 example_proc
    ≡ ok (pos 4) opened
unfolding wrap_open open_impl fd_cache_oflag store_oflag steps
opens = refl

wrap_fopen-empty_example :
    wrap_fopen example_api name [] example_proc
    ≡ ok none (record opened { sys = record (opened.sys) { errno = einval } })
wrap_fopen-empty_example = wrap_fopen-empty example_api name 4 example_proc opened opens
