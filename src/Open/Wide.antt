-- ===== src/Open/Wide.antt =====
-- `__wrap__open` and `__wrap_CreateFileW` of winsup/open.c, which Rust calls.
use magiskboot_build.Prelude.{
  ℕ, ◌+◌, ◌==◌, ℤ, ◌||◌, Option, none, some, List, [], ◌∷◌, if◌then◌else◌,
}
use magiskboot_build.Sys.{Ext, M}
use magiskboot_build.Win.Api.{Api, Str}
use magiskboot_build.Win.Flags.{has, o_creat, path_max}
use magiskboot_build.Win.Proc.{Proc, call, aborts, ◌>>=◌}
use magiskboot_build.Open.{wrap_open}

-- The third argument of `open` is passed on with `O_CREAT` only.
unfoldable pub wrap__open : {W : Type 0} → Api W → Str → (oflag mode : ℕ) → M (Proc W) ℤ
wrap__open api path oflag mode =
    if has oflag o_creat then wrap_open api path oflag mode else wrap_open api path oflag 0

-- The arguments of `CreateFileW` behind the name; pointers and handles are numbers.
pub record CreateArgs : Type 0 where
  pub desired_access : ℕ
  pub share_mode : ℕ
  pub security_attributes : ℕ
  pub creation_disposition : ℕ
  pub flags_and_attributes : ℕ
  pub template_file : ℕ

abbrev pub open_existing : ℕ
open_existing = 3

abbrev pub truncate_existing : ℕ
truncate_existing = 5

-- `WideCharToMultiByte` of a string that ends with a NUL, and the real `CreateFileW`, where `none`
-- stands for a null pointer.
pub record WideApi (W : Type 0) : Type 0 where
  pub wide_to_multi_byte : (wide : List ℕ) (len : ℕ) → Ext W (Option Str)
  pub real_create_file_w : Option (List ℕ) → CreateArgs → Ext W (Option ℕ)

-- `lpFileName` when it is neither null nor empty.
abbrev pub file_name : Option (List ℕ) → Option (List ℕ)
file_name none = none
file_name (some []) = none
file_name (some (c ∷ cs)) = some (c ∷ cs)

module _ {W : Type 0} (wide : WideApi W) where
  unfoldable pub wrap_create_file_w : Option (List ℕ) → CreateArgs → M (Proc W) (Option ℕ)
  wrap_create_file_w name args = elim (file_name name) [
    | none ↦ call (wide.real_create_file_w name args)
    | some chars ↦
        if (args.creation_disposition == open_existing)
          || (args.creation_disposition == truncate_existing)
        then call (wide.real_create_file_w name args)
        else (do
          path ← call (wide.wide_to_multi_byte chars (path_max + 1))
          elim path [ none ↦ aborts | some p ↦ call (wide.real_create_file_w name args) ])
  ]
