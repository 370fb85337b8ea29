-- ===== src/Mkdir/Laws.antt =====
-- What `_mkdir_stub` of winsup/mkdir.c leaves of the directory that it makes.
use magiskboot_build.Prelude.{
  ℕ, ℤ, pos, minus_one, is_neg, is_zero, Bool, true, false, Bool-cases, ◌≡◌, ◌≢◌, refl, ◌∙◌, ◌⊎◌,
  inl, inr,
}
use magiskboot_build.Sys.{Sys, Post}
use magiskboot_build.Win.Api.{Api, Str}
use magiskboot_build.Win.Proc.{Proc, steps}
use magiskboot_build.Mkdir.{mkdir_stub}

-- Which directories there are, as documented for the calls: `mkdir` makes one that was not there,
-- `rmdir` with the result 0 removes it, and nothing else changes.
pub record Directories {W : Type 0} (api : Api W) : Type 0 where
  pub exists : W → Str → Bool
  pub mkdir_fails :
      (path d : Str) (s : Sys W)
      → is_neg (api.mkdir path s).0 ≡ true
      → exists (api.mkdir path s).1.world d ≡ exists s.world d
  pub mkdir_makes :
      (path : Str) (s : Sys W)
      → is_neg (api.mkdir path s).0 ≡ false
      → (exists s.world path ≡ false) × (exists (api.mkdir path s).1.world path ≡ true)
  pub mkdir_other :
      (path d : Str) (s : Sys W) → d ≢ path → exists (api.mkdir path s).1.world d ≡ exists s.world d
  pub chmod_keeps :
      (path d : Str) (mode : ℕ) (s : Sys W)
      → exists (api.chmod path mode s).1.world d ≡ exists s.world d
  pub rmdir_removes :
      (path : Str) (s : Sys W)
      → is_zero (api.rmdir path s).0 ≡ true
      → exists (api.rmdir path s).1.world path ≡ false
  pub rmdir_other :
      (path d : Str) (s : Sys W) → d ≢ path → exists (api.rmdir path s).1.world d ≡ exists s.world d

module _ {W : Type 0} {api : Api W} (dirs : Directories api) (ndebug : Bool) (path : Str)
    (mode : ℕ) where
  -- The result 0 with the directory made; or -1 with `errno` from `mkdir`, or else from `chmod`, and
  -- the directory as before. With `NDEBUG` it is left behind when `chmod` fails.
  pub Outcome : Proc W → ℤ → Proc W → Type 0
  Outcome p r q =
      let made = (api.mkdir path p.sys).1 in
      let changed = (api.chmod path mode made).1 in
      ((r ≡ pos 0) × (dirs.exists p.sys.world path ≡ false) × (dirs.exists q.sys.world path ≡ true))
      ⊎ (((r ≡ minus_one)
            × (q.sys.errno ≡ made.errno)
            × (dirs.exists q.sys.world path ≡ dirs.exists p.sys.world path))
          ⊎ ((r ≡ minus_one)
              × (q.sys.errno ≡ changed.errno)
              × (dirs.exists p.sys.world path ≡ false)
              × (dirs.exists q.sys.world path ≡ ndebug)))

  -- When the calls treat directories as documented: `_mkdir_stub` returns 0 and has made the
  -- directory, which was not there; or it returns -1 with the error of `mkdir`, and there is such a
  -- directory if there was one; or it returns -1 with the error of `chmod`, whatever `rmdir` stores
  -- in `errno`, the directory was not there, and it is there now exactly in a build with `NDEBUG`. All
  -- other directories are as before.
  pub mkdir_stub-Outcome :
      (d : Str) (p : Proc W)
      → d ≢ path
      → Post
          (λ r q. Outcome p r q × (dirs.exists q.sys.world d ≡ dirs.exists p.sys.world d))
          (mkdir_stub api ndebug path mode p)
  unfolding mkdir_stub steps Outcome
  mkdir_stub-Outcome d p other =
      let made = (api.mkdir path p.sys).1 in
      let changed = (api.chmod path mode made).1 in
      let kept : dirs.exists changed.world d ≡ dirs.exists p.sys.world d =
        dirs.chmod_keeps path d mode made ∙ dirs.mkdir_other path d p.sys other in
      elim (Bool-cases (is_neg (api.mkdir path p.sys).0)) [
        | inl failed ↦ rw failed (
          inr (inl (refl, refl, dirs.mkdir_fails path path p.sys failed)),
          dirs.mkdir_fails path d p.sys failed,
        )
        | inr works ↦
            let (absent, present) = dirs.mkdir_makes path p.sys works in
            let there : dirs.exists changed.world path ≡ true =
              dirs.chmod_keeps path path mode made ∙ present in
            elim (Bool-cases (is_neg (api.chmod path mode made).0)) [
              | inl refused ↦ elim (Bool-cases ndebug) [
                | inl without ↦
                    rw (works, refused, without) (inr (inr (refl, refl, absent, there)), kept)
                | inr with_it ↦ elim (Bool-cases (is_zero (api.rmdir path changed).0)) [
                  | inl removed ↦
                      rw (works, refused, with_it, removed)
                        (
                          inr (inr (refl, refl, absent, dirs.rmdir_removes path changed removed)),
                          dirs.rmdir_other path d changed other ∙ kept,
                        )
                  | inr remains ↦ rw (works, refused, with_it, remains) tt
                ]
              ]
              | inr done ↦ rw (works, done) (inl (refl, absent, there), kept)
            ]
      ]
