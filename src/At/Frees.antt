-- ===== src/At/Frees.antt =====
-- The blocks of `malloc` that the functions of winsup/at.c hold when they return, with assertions on.
use magiskboot_build.Prelude.{ℕ, ◌+◌, ℤ, false, ◌≡◌, arith}
use magiskboot_build.Sys.{M, Post, Post-mono}
use magiskboot_build.Win.Api.{Api, Str}
use magiskboot_build.Win.Proc.{Proc}
use magiskboot_build.Win.Balance.{Balanced}
use magiskboot_build.At.Defs.{
  readlinkat, symlinkat, unlinkat, fstatat, mkdirat, faccessat, linkat, renameat, openat,
}
use magiskboot_build.At.Defs.Laws.{
  readlinkat-Balanced, symlinkat-Balanced, unlinkat-Balanced, fstatat-Balanced, mkdirat-Balanced,
  faccessat-Balanced, linkat-Balanced, renameat-Balanced, openat-Balanced,
}

-- As many blocks are held when the call returns as were held when it was made.
abbrev pub Frees : {W A : Type 0} → M (Proc W) A → Proc W → Type 0
Frees m p = Post (λ _ q. q.live ≡ p.live) (m p)

Balanced-Frees : {W A : Type 0} {m : M (Proc W) A} → Balanced m → (p : Proc W) → Frees m p
Balanced-Frees {m} h p =
    Post-mono (λ _ q. q.live + 0 ≡ p.live + 0) (λ _ q. q.live ≡ p.live) (m p)
      (h.run p (omega arith)) λ a q e. omega arith

module _ {W : Type 0} (api : Api W) (p : Proc W) (dirfd : ℤ) (path : Str) where
  -- Whenever `readlinkat`, `symlinkat`, `unlinkat`, `fstatat`, `mkdirat`, `faccessat` or `openat`
  -- returns in a build with assertions, on success and on every error, it holds as many blocks of
  -- `malloc` as when it was called: the path that it makes, and the one that `fstat` makes in the
  -- test of the descriptor, are freed, and no other block is.
  pub one_path-Frees :
      (other : Str) (len flags mode : ℕ)
      → Frees (readlinkat api false dirfd path len) p
        × Frees (symlinkat api false other dirfd path) p
        × Frees (unlinkat api false dirfd path flags) p
        × Frees (fstatat api false dirfd path flags) p
        × Frees (mkdirat api false dirfd path mode) p
        × Frees (faccessat api false dirfd path mode flags) p
        × Frees (openat api false dirfd path flags mode) p
  one_path-Frees other len flags mode = (
    Balanced-Frees (readlinkat-Balanced api dirfd path len) p,
    Balanced-Frees (symlinkat-Balanced api other dirfd path) p,
    Balanced-Frees (unlinkat-Balanced api dirfd path flags) p,
    Balanced-Frees (fstatat-Balanced api dirfd path flags) p,
    Balanced-Frees (mkdirat-Balanced api dirfd path mode) p,
    Balanced-Frees (faccessat-Balanced api dirfd path mode flags) p,
    Balanced-Frees (openat-Balanced api dirfd path flags mode) p,
  )

  -- Whenever `linkat` or `renameat` returns in a build with assertions, on success and when either
  -- of the paths cannot be made, it holds as many blocks of `malloc` as when it was called.
  pub two_paths-Frees :
      (dirfd2 : ℤ) (path2 : Str) (flags : ℕ)
      → Frees (linkat api false dirfd path dirfd2 path2 flags) p
        × Frees (renameat api false dirfd path dirfd2 path2) p
  two_paths-Frees dirfd2 path2 flags = (
    Balanced-Frees (linkat-Balanced api dirfd path dirfd2 path2 flags) p,
    Balanced-Frees (renameat-Balanced api dirfd path dirfd2 path2) p,
  )
