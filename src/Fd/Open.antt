-- ===== src/Fd/Open.antt =====
-- `__fd_get_path`, `__open_dir_fd` and `__open_symlink_fd` of winsup/internal/fd.c.
pub mod Laws
use magiskboot_build.Prelude.{
  ℕ, ◌+◌, ℤ, minus_one, is_neg, ◌==◌, Bool, Option, none, some, List, [], ◌∷◌, ◌++◌, take, drop,
  starts_with, if◌then◌else◌,
}
use magiskboot_build.Sys.{M}
use magiskboot_build.Win.Api.{Api, Str}
use magiskboot_build.Win.Flags.{
  file_flag_open_reparse_point, file_flag_backup_semantics, error_invalid_handle,
  error_invalid_parameter,
}
use magiskboot_build.Win.Proc.{Proc, call, set_last_error, malloc, free, pure, ◌>>=◌, ◌>>◌}

-- The bytes of "\\?\" and of "UNC\".
abbrev pub long_prefix : Str
long_prefix = 0x5c ∷ 0x5c ∷ b'?' ∷ 0x5c ∷ []

abbrev pub unc : Str
unc = b'U' ∷ b'N' ∷ b'C' ∷ 0x5c ∷ []

-- The two moves within the buffer: "\\?\UNC\server" becomes "\\server", and "\\?\C:" becomes "C:".
unfoldable pub strip_prefix : Str → Str
strip_prefix buf =
    if starts_with (long_prefix ++ unc) buf
    then take 2 buf ++ drop 8 buf
    else if starts_with long_prefix buf
    then drop 4 buf
    else buf

module _ {W : Type 0} (api : Api W) where
  -- Into the block that was got, which goes back if the call returns 0. Any other result is taken for
  -- success, and `buf` is the string that the block holds then, whether the path was stored or not.
  unfoldable pub final_path : ℕ → M (Proc W) (Option Str)
  final_path h = do
    (written, buf) ← call (api.get_final_path_name h)
    if written == 0 then free >> pure none else pure (some (strip_prefix buf))

  -- A result is a block that the caller frees.
  unfoldable pub fd_get_path : ℤ → M (Proc W) (Option Str)
  fd_get_path fd = do
    handle ← call (api.get_osfhandle fd)
    elim handle [
      | none ↦ set_last_error error_invalid_handle >> pure none
      | some h ↦ (do got ← malloc api; if got then final_path h else pure none)
    ]

  -- The common text of the two functions below.
  unfoldable pub open_handle_fd : Str → (access share_mode flags attributes : ℕ) → M (Proc W) ℤ
  open_handle_fd path access share_mode flags attributes = do
    handle ← call (api.create_file path access share_mode attributes)
    elim handle [
      | none ↦ pure minus_one
      | some h ↦ (do
        fd ← call (api.open_osfhandle h flags)
        if is_neg fd
            then set_last_error error_invalid_parameter
              >> (call (api.close_handle h) >> pure minus_one)
            else pure fd)
    ]

  unfoldable pub open_dir_fd : Str → (access share_mode flags : ℕ) → M (Proc W) ℤ
  open_dir_fd path access share_mode flags =
      open_handle_fd path access share_mode flags file_flag_backup_semantics

  unfoldable pub open_symlink_fd : Str → (access share_mode flags : ℕ) → M (Proc W) ℤ
  open_symlink_fd path access share_mode flags =
      open_handle_fd path access share_mode flags
        (file_flag_open_reparse_point + file_flag_backup_semantics)
