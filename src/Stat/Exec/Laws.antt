-- ===== src/Stat/Exec/Laws.antt =====
-- Which names the test of winsup/stat.c takes for programs.
use magiskboot_build.Prelude.{
  ℕ, suc, ◌+◌, ◌-◌, leb, true, false, [], ◌∷◌, ◌++◌, length, length-append, get_or, ◌≡◌, refl, ◌∙◌,
  arith,
}
use magiskboot_build.Win.Api.{Str}
use magiskboot_build.Stat.Exec.{is_exec_suffix, suffix_hash, is_exec_hash, tolower, is_program}

-- A dot and three letters.
abbrev pub suffix : ℕ → ℕ → ℕ → Str
suffix a b c = b'.' ∷ a ∷ b ∷ c ∷ []

shift : (n i : ℕ) → (0 + i ≡ i) × (suc n + i ≡ suc (n + i))
shift n i = (omega arith, omega arith)

get_or-append : (xs ys : Str) (i d : ℕ) → get_or (xs ++ ys) (length xs + i) d ≡ get_or ys i d
get_or-append [] ys i d = rw (shift 0 i).0 refl
get_or-append (x ∷ xs) ys i d = rw (shift (length xs) i).1 (get_or-append xs ys i d)

-- The test reads the dot and the three bytes after it, and nothing else.
is_program-hash :
    (stem : Str) (a b c : ℕ)
    → is_program (stem ++ suffix a b c) ≡ is_exec_suffix (tolower a) (tolower b) (tolower c)
unfolding is_program
is_program-hash stem a b c =
    rw
      (
        length-append stem (suffix a b c),
        long,
        at_dot,
        at_first,
        at_second,
        at_third,
        get_or-append stem (suffix a b c) 0 0,
        get_or-append stem (suffix a b c) 1 0,
        get_or-append stem (suffix a b c) 2 0,
        get_or-append stem (suffix a b c) 3 0,
      )
      refl
  where
    long : leb 4 (length stem + 4) ≡ true
    long = ground arith

    at_dot : length stem + 4 - 4 ≡ length stem + 0
    at_dot = omega arith

    at_first : length stem + 4 - 3 ≡ length stem + 1
    at_first = omega arith

    at_second : length stem + 4 - 2 ≡ length stem + 2
    at_second = omega arith

    at_third : length stem + 4 - 1 ≡ length stem + 3
    at_third = omega arith

-- The suffixes that the macros name.
pub data IsExec : ℕ → ℕ → ℕ → Type 0 where
  exe_suffix : IsExec b'e' b'x' b'e'
  bat_suffix : IsExec b'b' b'a' b't'
  cmd_suffix : IsExec b'c' b'm' b'd'
  com_suffix : IsExec b'c' b'o' b'm'

hash-IsExec : {a b c : ℕ} → IsExec a b c → is_exec_suffix a b c ≡ true
unfolding is_exec_suffix is_exec_hash suffix_hash
hash-IsExec exe_suffix = refl
hash-IsExec bat_suffix = refl
hash-IsExec cmd_suffix = refl
hash-IsExec com_suffix = refl

-- Every name that ends in `.exe`, `.bat`, `.cmd` or `.com`, in letters of either case and after any
-- stem, is taken for a program.
pub is_program-IsExec :
    (stem : Str) (a b c : ℕ)
    → IsExec (tolower a) (tolower b) (tolower c)
    → is_program (stem ++ suffix a b c) ≡ true
is_program-IsExec stem a b c e = is_program-hash stem a b c ∙ hash-IsExec e

-- Every name that ends in `.img`, `.bin` or `.elf` is taken for a program too, since the hash of
-- the suffix is that of `.com`, `.bat` or `.cmd`; one that ends in `.txt` or `.zip` is not.
pub is_program-collision :
    (stem : Str)
    → (is_program (stem ++ suffix b'i' b'm' b'g') ≡ true)
      × (is_program (stem ++ suffix b'b' b'i' b'n') ≡ true)
      × (is_program (stem ++ suffix b'e' b'l' b'f') ≡ true)
      × (is_program (stem ++ suffix b't' b'x' b't') ≡ false)
      × (is_program (stem ++ suffix b'z' b'i' b'p') ≡ false)
unfolding is_exec_suffix is_exec_hash suffix_hash
is_program-collision stem = (
  is_program-hash stem b'i' b'm' b'g',
  is_program-hash stem b'b' b'i' b'n',
  is_program-hash stem b'e' b'l' b'f',
  is_program-hash stem b't' b'x' b't',
  is_program-hash stem b'z' b'i' b'p',
)
