-- ===== src/Dirent/Read/Types.antt =====
-- The type that `_readdir_stub` gives an entry, and the macros of sys/stat.h.
use magiskboot_build.Prelude.{
  ap, zero, suc, [], ◌∷◌, get_or, ◌≤◌, ℕ, ◌==◌, bit_and, ◌≡◌, ◌↔◌, refl, sym, ◌∙◌, arith,
  if◌then◌else◌,
}
use mathlib.Core.Path.{subst}
use magiskboot_build.Win.Flags.{
  s_isdir, s_ifmt, s_ififo, s_ifchr, s_ifblk, s_iflnk, s_ifsock, s_ifreg, s_ifdir,
}
use magiskboot_build.Dirent.Read.{type_of_mode}

-- The bits `S_IFMT` of a mode, for each type but `DT_UNKNOWN`.
abbrev pub kind_of_type : ℕ → ℕ
kind_of_type t =
    get_or (0 ∷ s_ifreg ∷ s_iflnk ∷ s_ifdir ∷ s_ififo ∷ s_ifsock ∷ s_ifblk ∷ s_ifchr ∷ []) t 0

-- The type of the entry, by the bits `S_IFMT`.
abbrev type_of_kind : ℕ → ℕ
type_of_kind k =
    if k == s_ifreg
    then 1
    else if k == s_iflnk
    then 2
    else if k == s_ifdir
    then 3
    else if k == s_ififo
    then 4
    else if k == s_ifsock
    then 5
    else if k == s_ifblk
    then 6
    else if k == s_ifchr
    then 7
    else 0

kind_of_type-type_of_kind : (k : ℕ) → 1 ≤ type_of_kind k → kind_of_type (type_of_kind k) ≡ k
kind_of_type-type_of_kind k h = ground arith

type_of_kind-kind_of_type : (t : ℕ) → t ≤ 7 → type_of_kind (kind_of_type t) ≡ t
type_of_kind-kind_of_type zero h = refl
type_of_kind-kind_of_type (suc zero) h = refl
type_of_kind-kind_of_type (suc (suc zero)) h = refl
type_of_kind-kind_of_type (suc (suc (suc zero))) h = refl
type_of_kind-kind_of_type (suc (suc (suc (suc zero)))) h = refl
type_of_kind-kind_of_type (suc (suc (suc (suc (suc zero))))) h = refl
type_of_kind-kind_of_type (suc (suc (suc (suc (suc (suc zero)))))) h = refl
type_of_kind-kind_of_type (suc (suc (suc (suc (suc (suc (suc zero))))))) h = refl
type_of_kind-kind_of_type (suc (suc (suc (suc (suc (suc (suc (suc t)))))))) h = absurd (omega arith)

-- For each of the seven types that `readdir` tells apart, an entry gets the type if and only if the
-- bits `S_IFMT` of its file's mode are the ones that stand for it.
pub type_of_mode_lem :
    (st_mode t : ℕ)
    → 1 ≤ t
    → t ≤ 7
    → (type_of_mode st_mode ≡ t) ↔ (bit_and st_mode s_ifmt ≡ kind_of_type t)
unfolding type_of_mode s_isdir
type_of_mode_lem st_mode t low high = (
  λ e.
      sym (kind_of_type-type_of_kind (bit_and st_mode s_ifmt) (subst (λ n. 1 ≤ n) (sym e) low))
      ∙ ap kind_of_type e,
  λ e. ap type_of_kind e ∙ type_of_kind-kind_of_type t high,
)
