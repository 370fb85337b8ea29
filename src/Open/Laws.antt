-- ===== src/Open/Laws.antt =====
-- The wrappers of winsup/open.c do what the functions that they stand for do.
use magiskboot_build.Prelude.{
  ℕ, ◌+◌, ◌==◌, ◌||◌, Option, none, some, Option-cases, List, [], ◌∷◌, bit_or, bit_and, Bool-cases,
  ◌≡◌, refl, ◌∙◌, inl, inr,
}
use magiskboot_build.Sys.{Sys, Post, ok}
use magiskboot_build.Prelude.Digits.{bit_and_or_distrib, bit_or_none}
use magiskboot_build.Win.Api.{Api, Str}
use magiskboot_build.Win.Flags.{has, o_creat, o_binary, path_max}
use magiskboot_build.Win.Proc.{Proc, call, steps}
use magiskboot_build.Open.{open_impl, wrap_open}
use magiskboot_build.Open.Wide.{
  wrap__open, CreateArgs, open_existing, truncate_existing, WideApi, wrap_create_file_w,
}

binary-creat : (oflag : ℕ) → bit_and (bit_or oflag o_binary) o_creat ≡ bit_and oflag o_creat
binary-creat oflag = bit_and_or_distrib oflag o_binary o_creat ∙ bit_or_none (bit_and oflag o_creat)

wrap__open-wrap_open :
    {W : Type 0} (api : Api W) (path : Str) (oflag mode : ℕ) (p : Proc W)
    → wrap__open api path oflag mode p ≡ wrap_open api path oflag mode p
unfolding wrap__open wrap_open open_impl
wrap__open-wrap_open api path oflag mode p = elim (Bool-cases (has oflag o_creat)) [
  | inl creates ↦ rw creates refl
  | inr opens ↦ rw (opens, binary-creat oflag, opens) refl
]

wrap_create_file_w-real_create_file_w :
    {W : Type 0} (wide : WideApi W) (name : Option (List ℕ)) (args : CreateArgs) (p : Proc W)
    → ((chars : List ℕ) (len : ℕ) (s : Sys W) (made : Str)
        → (wide.wide_to_multi_byte chars len s).0 ≡ some made
        → (wide.wide_to_multi_byte chars len s).1 ≡ s)
    → Post
        (λ r q. call (wide.real_create_file_w name args) p ≡ ok r q)
        (wrap_create_file_w wide name args p)
unfolding wrap_create_file_w steps
wrap_create_file_w-real_create_file_w wide none args p h = refl
wrap_create_file_w-real_create_file_w wide (some []) args p h = refl
wrap_create_file_w-real_create_file_w wide (some (c ∷ cs)) args p h =
    let made = args.creation_disposition in
    elim (Bool-cases ((made == open_existing) || (made == truncate_existing))) [
      | inl existing ↦ rw existing refl
      | inr creating ↦
          let path = wide.wide_to_multi_byte (c ∷ cs) (path_max + 1) p.sys in
          elim (Option-cases path.0) [
            | inl failed ↦ rw (creating, failed) tt
            | inr (p', converted) ↦
                rw (creating, converted, h (c ∷ cs) (path_max + 1) p.sys p' converted) refl
          ]
    ]

-- What Rust calls does what it stands for. `_open` does what `open` does with the same arguments,
-- although without `O_CREAT` it does not pass the third one on. When a conversion that succeeds leaves
-- the system as it is, the wrapped `CreateFileW` returns only what the real one does with the same
-- arguments, name and all: the converted path is not used. It may also end the program, when the
-- conversion fails.
pub wrap__open-wrap_create_file_w :
    {W : Type 0} (api : Api W) (wide : WideApi W) (path : Str) (oflag mode : ℕ)
    (name : Option (List ℕ)) (args : CreateArgs) (p : Proc W)
    → ((chars : List ℕ) (len : ℕ) (s : Sys W) (made : Str)
        → (wide.wide_to_multi_byte chars len s).0 ≡ some made
        → (wide.wide_to_multi_byte chars len s).1 ≡ s)
    → (wrap__open api path oflag mode p ≡ wrap_open api path oflag mode p)
      × Post
          (λ r q. call (wide.real_create_file_w name args) p ≡ ok r q)
          (wrap_create_file_w wide name args p)
wrap__open-wrap_create_file_w api wide path oflag mode name args p h = (
  wrap__open-wrap_open api path oflag mode p,
  wrap_create_file_w-real_create_file_w wide name args p h,
)
