-- ===== src/At/Tests.antt =====
-- Runs of winsup/at.c on the system of Win/Example.
use magiskboot_build.Prelude.{pos, false, ◌≡◌, refl, some, [], ◌∷◌}
use magiskboot_build.Sys.{ok, Post}
use magiskboot_build.Win.Api.{Str}
use magiskboot_build.Win.Flags.{s_isdir}
use magiskboot_build.Win.Proc.{Proc, steps}
use magiskboot_build.Win.Example.{Opened, example_api, example_proc}
use magiskboot_build.At.Path.{get_path_at, is_dirfd, join_path}
use magiskboot_build.At.Path.Bounds.{Resolved, get_path_at-Resolved}
use magiskboot_build.Stat.Defs.{fstat, fill_stat, file_size, describe, file_mode, disk_mode}
use magiskboot_build.Fd.Open.{fd_get_path, final_path, strip_prefix}
use magiskboot_build.At.Defs.{
  readlinkat, symlinkat, unlinkat, fstatat, mkdirat, faccessat, linkat, renameat, openat,
}
use magiskboot_build.At.Frees.{Frees, one_path-Frees, two_paths-Frees}
use magiskboot_build.Prelude.{not}
use magiskboot_build.Win.Example.{dir_info, dir_path}
use magiskboot_build.Stat.Defs.{on_disk}
use magiskboot_build.Stat.Defs.Mode.{read_only, executable}
use magiskboot_build.Win.Flags.{r_ok, w_ok, x_ok}
use magiskboot_build.At.Defs.{denied}
use magiskboot_build.At.Access.{denied-file_mode}

abbrev name : Str
name = b'a' ∷ []

one_path-Frees_example :
    Frees (readlinkat example_api false (pos 3) name 10) example_proc
    × Frees (symlinkat example_api false name (pos 3) name) example_proc
    × Frees (unlinkat example_api false (pos 3) name 0) example_proc
    × Frees (fstatat example_api false (pos 3) name 0) example_proc
    × Frees (mkdirat example_api false (pos 3) name 7) example_proc
    × Frees (faccessat example_api false (pos 3) name 7 0) example_proc
    × Frees (openat example_api false (pos 3) name 0 7) example_proc
one_path-Frees_example = one_path-Frees example_api example_proc (pos 3) name name 10 0 7

two_paths-Frees_example :
    Frees (linkat example_api false (pos 3) name (pos 3) name 0) example_proc
    × Frees (renameat example_api false (pos 3) name (pos 3) name) example_proc
two_paths-Frees_example = two_paths-Frees example_api example_proc (pos 3) name (pos 3) name 0

-- "C:\d/a"
abbrev resolved : Str
resolved = b'C' ∷ b':' ∷ 0x5c ∷ b'd' ∷ b'/' ∷ b'a' ∷ []

abbrev one_block : Proc Opened
one_block = record example_proc { live = 1 }

name-resolved :
    get_path_at example_api false (pos 3) name example_proc ≡ ok (some resolved) one_block
unfolding get_path_at is_dirfd fstat fill_stat file_size describe file_mode disk_mode fd_get_path
    final_path strip_prefix join_path s_isdir steps
name-resolved = refl

get_path_at-Resolved_example :
    Post
      (λ path s. Resolved example_api false (pos 3) name example_proc path)
      (get_path_at example_api false (pos 3) name example_proc)
get_path_at-Resolved_example = get_path_at-Resolved example_api false (pos 3) name example_proc

denied-file_mode_example :
    (denied example_api false r_ok (file_mode 1 dir_info (some dir_path)) ≡ not (on_disk 1))
    × (denied example_api false w_ok (file_mode 1 dir_info (some dir_path))
        ≡ not (not (read_only dir_info)))
    × (denied example_api false x_ok (file_mode 1 dir_info (some dir_path))
        ≡ not (executable 1 dir_info (some dir_path)))
denied-file_mode_example = denied-file_mode example_api false 1 dir_info (some dir_path)
