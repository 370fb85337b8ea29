-- ===== src/Memmem/Tests.antt =====
-- `memmem` of winsup/str.c on "aabab".
use magiskboot_build.Prelude.{ℕ, Option, some, none, List, [], ◌∷◌, ◌≡◌, refl}
use magiskboot_build.Memmem.{memmem}
use magiskboot_build.Memmem.Find.{IsFirst}
use magiskboot_build.Memmem.Laws.{memmem-IsFirst}

abbrev aabab : List ℕ
aabab = b'a' ∷ b'a' ∷ b'b' ∷ b'a' ∷ b'b' ∷ []

finds : memmem aabab (b'a' ∷ b'b' ∷ []) ≡ some (some 1)
unfolding memmem
finds = refl

finds_nothing : memmem aabab (b'b' ∷ b'b' ∷ []) ≡ some none
unfolding memmem
finds_nothing = refl

memmem-IsFirst_example :
    (r : Option ℕ) × (memmem aabab (b'a' ∷ b'b' ∷ []) ≡ some r) × IsFirst aabab (b'a' ∷ b'b' ∷ []) r
memmem-IsFirst_example = memmem-IsFirst aabab (b'a' ∷ b'b' ∷ []) (λ e. cc)
