-- ===== src/Link/Read.antt =====
-- `readlink` of winsup/link.c.
pub mod Laws
pub mod Target
mod Tests
use magiskboot_build.Prelude.{
  ℕ, suc, ◌+◌, ◌-◌, ℤ, is_neg, ◌==◌, Bool, Option, none, some, List, length, drop, if◌then◌else◌,
}
use magiskboot_build.Errno.{einval}
use magiskboot_build.Sys.{M}
use magiskboot_build.Win.Api.{Api, Str, Reparse}
use magiskboot_build.Win.Flags.{generic_read, file_share_valid_flags}
use magiskboot_build.Win.Proc.{
  Proc, call, set_errno, errno_from_last, malloc, free, pure, aborts, ◌>>=◌, ◌>>◌,
}
use magiskboot_build.Fd.Open.{open_symlink_fd}

abbrev pub io_reparse_tag_symlink : ℕ
io_reparse_tag_symlink = 0xa000000c

-- `ws_ptr` and `ws_len`: the name to print, or else the substitute; `none` if both are empty.
unfoldable pub reparse_name : Reparse → Option (List ℕ × ℕ)
reparse_name buff =
    if buff.print_name_length == 0
    then (if buff.substitute_name_length == 0
        then none
        else some (drop buff.substitute_name_offset buff.path_buffer, buff.substitute_name_length))
    else some (drop buff.print_name_offset buff.path_buffer, buff.print_name_length)

module _ {W : Type 0} (api : Api W) (ndebug : Bool) where
  -- The result, and the bytes written to the caller's buffer; `none` is the result -1.
  abbrev pub Target : Type 0
  Target = Option (ℕ × Str)

  -- Closes the handle, and frees the block that holds the reparse data.
  abbrev pub finish : ℕ → Target → M (Proc W) Target
  finish h r = do call (api.close_handle h); free; pure r

  -- From the call of `WideCharToMultiByte` to the end.
  unfoldable pub convert_name : (h len : ℕ) → Option (List ℕ × ℕ) → M (Proc W) Target
  convert_name h len none = if ndebug then pure none else aborts
  convert_name h len (some (ws_ptr, ws_len)) = do
    converted ← call (api.wide_to_multi_byte ws_ptr (ws_len + 1) len)
    elim converted [ none ↦ aborts | some buf ↦ finish h (some (length buf - 1, buf)) ]

  -- From the name to the end, with the reparse data in hand.
  unfoldable pub convert : (h : ℕ) → Reparse → (len : ℕ) → M (Proc W) Target
  convert h buff len = convert_name h len (reparse_name buff)

  -- From `malloc` to the end, for the descriptor's handle.
  unfoldable pub read_reparse : (h len : ℕ) → M (Proc W) Target
  read_reparse h len = do
    got ← malloc api
    if got
        then (do
          data' ← call (api.get_reparse_point h)
          elim data' [
            | none ↦ errno_from_last >> finish h none
            | some buff ↦
                if buff.tag == io_reparse_tag_symlink
                then convert h buff len
                else set_errno einval >> finish h none
          ])
        else (do call (api.close_handle h); pure none)

  unfoldable pub readlink : Str → (len : ℕ) → M (Proc W) Target
  readlink path len = if len == 0 then set_errno einval >> pure none else do
    fd ← open_symlink_fd api path generic_read file_share_valid_flags 0
    if is_neg fd then errno_from_last >> pure none else (do
      handle ← call (api.get_osfhandle fd)
      elim handle [ none ↦ (do call (api.close fd); pure none) | some h ↦ read_reparse h len ])
