-- ===== src/Acl.antt =====
-- winsup/acl.c: `fchmod`, and the functions that change an owner in name only.
pub mod Laws
mod Tests
use magiskboot_build.Prelude.{
  ℕ, ◌==◌, ℤ, pos, minus_one, is_neg, is_zero, Bool, Option, none, some, bit_and, bit_or,
  if◌then◌else◌,
}
use magiskboot_build.Sys.{M}
use magiskboot_build.Win.Api.{Api, Str, FileInfo, Stat}
use magiskboot_build.Win.Flags.{has, s_iwrite_all, file_attribute_readonly, f_ok}
use magiskboot_build.Win.Proc.{Proc, call, errno_from_last, pure, ◌>>=◌, ◌>>◌}
use magiskboot_build.Stat.Defs.{fstat, lstat}

-- `~FILE_ATTRIBUTE_READONLY`, a word of 32 bits.
abbrev pub not_readonly : ℕ
not_readonly = 0xfffffffe

-- `new_attr`
unfoldable pub new_attributes : (mode attributes : ℕ) → ℕ
new_attributes mode attributes =
    if has mode s_iwrite_all
    then bit_and attributes not_readonly
    else bit_or attributes file_attribute_readonly

module _ {W : Type 0} (api : Api W) where
  -- From the comparison to the end.
  unfoldable pub apply_attributes : (h attributes new_attr : ℕ) → M (Proc W) ℤ
  apply_attributes h attributes new_attr = if new_attr == attributes then pure (pos 0) else do
    done ← call (api.set_file_attributes h new_attr)
    if done then pure (pos 0) else errno_from_last >> pure minus_one

  unfoldable pub fchmod : ℤ → (mode : ℕ) → M (Proc W) ℤ
  unfolding apply_attributes
  fchmod fd mode = do
    handle ← call (api.get_osfhandle fd)
    elim handle [
      | none ↦ pure minus_one
      | some h ↦ (do
        info ← call (api.get_file_information h)
        elim info [
          | none ↦ errno_from_last >> pure minus_one
          | some hfi ↦ apply_attributes h hfi.attributes (new_attributes mode hfi.attributes)
        ])
    ]

  -- The owner and the group are not used.
  unfoldable pub chown : Str → (owner group : ℕ) → M (Proc W) ℤ
  chown path owner group = do
    found ← call (api.access path f_ok)
    if is_zero found then pure (pos 0) else pure minus_one

  -- 0 if there is a structure, and -1 if not.
  abbrev pub status : Option Stat → ℤ
  status none = minus_one
  status (some st) = pos 0

  unfoldable pub fchown : (ndebug : Bool) → ℤ → (owner group : ℕ) → M (Proc W) ℤ
  fchown ndebug fildes owner group = do buf ← fstat api ndebug fildes; pure (status buf)

  unfoldable pub lchown : (ndebug : Bool) → Str → (owner group : ℕ) → M (Proc W) ℤ
  lchown ndebug path owner group = do buf ← lstat api ndebug path; pure (status buf)
