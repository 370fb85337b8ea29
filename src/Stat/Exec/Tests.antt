-- ===== src/Stat/Exec/Tests.antt =====
-- Names of files, and whether winsup/stat.c takes them for programs.
use magiskboot_build.Prelude.{true, false, [], ◌∷◌, ◌++◌, ◌≡◌}
use magiskboot_build.Win.Api.{Str}
use magiskboot_build.Stat.Exec.{is_program}
use magiskboot_build.Stat.Exec.Laws.{suffix, exe_suffix, is_program-IsExec, is_program-collision}

abbrev stem : Str
stem = b'b' ∷ b'o' ∷ []

is_program-IsExec_example : is_program (stem ++ suffix b'E' b'x' b'E') ≡ true
is_program-IsExec_example = is_program-IsExec stem b'E' b'x' b'E' exe_suffix

is_program-collision_example :
    (is_program (stem ++ suffix b'i' b'm' b'g') ≡ true)
    × (is_program (stem ++ suffix b'b' b'i' b'n') ≡ true)
    × (is_program (stem ++ suffix b'e' b'l' b'f') ≡ true)
    × (is_program (stem ++ suffix b't' b'x' b't') ≡ false)
    × (is_program (stem ++ suffix b'z' b'i' b'p') ≡ false)
is_program-collision_example = is_program-collision stem
