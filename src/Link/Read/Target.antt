-- ===== src/Link/Read/Target.antt =====
-- The result of `readlink` in winsup/link.c, and the descriptor that it opens.
use magiskboot_build.Prelude.{
  ℕ, ◌+◌, ◌-◌, ◌≤◌, ◌==◌, ==_iff, ℤ, is_neg, Bool, true, false, Bool-cases, Option, none, some,
  Option-cases, List, drop, length, ◌≡◌, refl, ◌⊎◌, inl, inr, arith,
}
use magiskboot_build.Sys.{Sys, Ext, M, Out, ok, abort, and_then, Post, Post-bind, Post-refl}
use magiskboot_build.Win.Api.{Api, Str, Reparse}
use magiskboot_build.Win.Proc.{Proc, call, malloc, steps, ◌>>=◌}
use magiskboot_build.Win.Flags.{generic_read, file_share_valid_flags}
use magiskboot_build.Fd.Open.{open_symlink_fd, open_handle_fd}
use magiskboot_build.Link.Read.{
  reparse_name, io_reparse_tag_symlink, convert_name, convert, read_reparse, readlink,
}

-- The name in the data of a link: the one to print, or the substitute when there is none to print.
pub Named : Reparse → (chars : List ℕ) (n : ℕ) → Type 0
Named b chars n =
    (1 ≤ n)
    × (((b.print_name_length ≡ n) × (chars ≡ drop b.print_name_offset b.path_buffer))
        ⊎ ((b.print_name_length ≡ 0)
            × (b.substitute_name_length ≡ n)
            × (chars ≡ drop b.substitute_name_offset b.path_buffer)))

-- What is read of the data is a name of them, or nothing.
pub NamedOf : Reparse → Option (List ℕ × ℕ) → Type 0
NamedOf b none = Unit
NamedOf b (some (chars, n)) = Named b chars n

reparse_name-NamedOf : (b : Reparse) → NamedOf b (reparse_name b)
unfolding reparse_name Named NamedOf
reparse_name-NamedOf b = elim (Bool-cases (b.print_name_length == 0)) [
  | inl no_print ↦ elim (Bool-cases (b.substitute_name_length == 0)) [
    | inl no_name ↦ rw (no_print, no_name) tt
    | inr substitute ↦
        rw (no_print, substitute)
          (ground arith, inr ((==_iff b.print_name_length 0).0 no_print, refl, refl))
  ]
  | inr print ↦ rw print (ground arith, inl (refl, refl))
]

-- The system with another `close`.
abbrev pub closes_by : {W : Type 0} → Api W → (close : ℤ → Ext W ℤ) → Api W
closes_by api f = record api { close = f }

and_then_cong :
    {S A B : Type 0} (m : Out S A) (k l : A → M S B)
    → ((a : A) (s : S) → m ≡ ok a s → k a s ≡ l a s)
    → and_then m k ≡ and_then m l
and_then_cong (ok a s) k l h = h a s refl
and_then_cong abort k l h = refl

module _ {W : Type 0} (api : Api W) (len : ℕ) where
  -- A result of `readlink`: -1, or what `WideCharToMultiByte` makes of the name in the data of a link,
  -- with the number of bytes before the last one.
  pub Read : Option (ℕ × Str) → Type 0
  Read r =
      (r ≡ none)
      ⊎ ((h : ℕ) × (s : Sys W) × (b : Reparse) × (chars : List ℕ) × (n : ℕ) × (u : Sys W)
          × (buf : Str) × ((api.get_reparse_point h s).0 ≡ some b)
          × (b.tag ≡ io_reparse_tag_symlink)
          × Named b chars n
          × ((api.wide_to_multi_byte chars (n + 1) len u).0 ≡ some buf)
          × (r ≡ some (length buf - 1, buf)))

  convert_name-Read :
      (ndebug : Bool) (h g : ℕ) (s : Sys W) (b : Reparse) (name : Option (List ℕ × ℕ)) (p : Proc W)
      → (api.get_reparse_point g s).0 ≡ some b
      → b.tag ≡ io_reparse_tag_symlink
      → NamedOf b name
      → Post (λ r q. Read r) (convert_name api ndebug h len name p)
  unfolding convert_name steps Read NamedOf
  convert_name-Read true h g s b none p got tag named = inl refl
  convert_name-Read false h g s b none p got tag named = tt
  convert_name-Read ndebug h g s b (some (chars, n)) p got tag named =
      elim (Option-cases (api.wide_to_multi_byte chars (n + 1) len p.sys).0) [
        | inl failed ↦ rw failed tt
        | inr (buf, converted) ↦
            rw converted (inr (g, s, b, chars, n, p.sys, buf, got, tag, named, converted, refl))
      ]

  read_reparse-Read :
      (ndebug : Bool) (h : ℕ) (p : Proc W) → Post (λ r q. Read r) (read_reparse api ndebug h len p)
  unfolding read_reparse convert steps Read
  read_reparse-Read ndebug h p =
      let s = (api.malloc p.sys).1 in
      elim (Bool-cases (api.malloc p.sys).0) [
        | inl got ↦ elim (Option-cases (api.get_reparse_point h s).0) [
          | inl failed ↦ rw (got, failed) (inl refl)
          | inr (b, data') ↦ elim (Bool-cases (b.tag == io_reparse_tag_symlink)) [
            | inl link ↦
                rw (got, data', link)
                  (convert_name-Read ndebug h h s b (reparse_name b) _ data'
                    ((==_iff b.tag io_reparse_tag_symlink).0 link) (reparse_name-NamedOf b))
            | inr other ↦ rw (got, data', other) (inl refl)
          ]
        ]
        | inr failed ↦ rw failed (inl refl)
      ]

  readlink_lem :
      (ndebug : Bool) (path : Str) (p : Proc W)
      → Post (λ r q. Read r) (readlink api ndebug path len p)
  unfolding readlink steps Read
  readlink_lem ndebug path p = elim (Bool-cases (len == 0)) [
    | inl nothing ↦ rw nothing (inl refl)
    | inr given ↦
        let opened = open_symlink_fd api path generic_read file_share_valid_flags 0 p in
        rw given (
          Post-bind (λ fd s. opened ≡ ok fd s) (λ r q. Read r) opened _ (Post-refl opened)
            λ fd s _. elim (Bool-cases (is_neg fd)) [
              | inl neg ↦ rw neg (inl refl)
              | inr n ↦ elim (Option-cases (api.get_osfhandle fd s.sys).0) [
                | inl invalid ↦ rw (n, invalid) (inl refl)
                | inr (h, e) ↦ rw (n, e) (read_reparse-Read ndebug h _)
              ]
            ])
  ]

  module _ (close : ℤ → Ext W ℤ) where
    readlink-closes_by :
        (ndebug : Bool) (path : Str) (p : Proc W)
        → ((fd : ℤ) (s : Proc W)
            → open_symlink_fd api path generic_read file_share_valid_flags 0 p ≡ ok fd s
            → is_neg fd ≡ false
            → (h : ℕ) × ((api.get_osfhandle fd s.sys).0 ≡ some h))
        → readlink (closes_by api close) ndebug path len p ≡ readlink api ndebug path len p
    unfolding readlink read_reparse convert convert_name open_symlink_fd open_handle_fd ◌>>=◌ call
        malloc
    readlink-closes_by ndebug path p valid = elim (Bool-cases (len == 0)) [
      | inl nothing ↦ rw nothing refl
      | inr given ↦ rw given (
          and_then_cong (open_symlink_fd api path generic_read file_share_valid_flags 0 p) _ _
            λ fd s o. elim (Bool-cases (is_neg fd)) [
              | inl neg ↦ rw neg refl
              | inr n ↦ let (h, e) = valid fd s o n in rw (n, e) refl
            ])
    ]

    -- A result of `readlink` is -1, or the number of bytes before the last one of what
    -- `WideCharToMultiByte` made of a name that is not empty in the data of a symbolic link, the name
    -- to print if there is one, or else the substitute. And when the descriptor that `readlink` opens
    -- has a handle in the state in which it was opened, the run is the same whatever `close` does, so
    -- that this descriptor is never closed by it.
    pub readlink-Read :
        (ndebug : Bool) (path : Str) (p : Proc W)
        → ((fd : ℤ) (s : Proc W)
            → open_symlink_fd api path generic_read file_share_valid_flags 0 p ≡ ok fd s
            → is_neg fd ≡ false
            → (h : ℕ) × ((api.get_osfhandle fd s.sys).0 ≡ some h))
        → Post (λ r q. Read r) (readlink api ndebug path len p)
          × (readlink (closes_by api close) ndebug path len p ≡ readlink api ndebug path len p)
    readlink-Read ndebug path p valid =
        (readlink_lem ndebug path p, readlink-closes_by ndebug path p valid)
