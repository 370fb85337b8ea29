-- ===== src/Strlcpy/Tests.antt =====
-- `strlcpy` of libbsd/str.c on "abcdef" and a buffer of eight bytes.
use magiskboot_build.Prelude.{ℕ, List, [], ◌∷◌, ◌≡◌, refl, arith, replicate}
use magiskboot_build.Strlcpy.{strlcpy}
use magiskboot_build.Strlcpy.Laws.{strlcpy_lem}

abbrev abcdef : List ℕ
abcdef = b'a' ∷ b'b' ∷ b'c' ∷ b'd' ∷ b'e' ∷ b'f' ∷ []

abbrev buffer : List ℕ
buffer = replicate 8 9

truncates : strlcpy buffer abcdef 4 ≡ (b'a' ∷ b'b' ∷ b'c' ∷ 0 ∷ 9 ∷ 9 ∷ 9 ∷ 9 ∷ [], 6)
unfolding strlcpy
truncates = refl

strlcpy_lem_example : strlcpy buffer abcdef 4 ≡ (b'a' ∷ b'b' ∷ b'c' ∷ 0 ∷ 9 ∷ 9 ∷ 9 ∷ 9 ∷ [], 6)
strlcpy_lem_example = strlcpy_lem buffer abcdef 4 (omega arith) refl
