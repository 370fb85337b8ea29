-- ===== src/At/Path/Bounds.antt =====
-- The path that `__get_path_at` of winsup/internal/fd.c makes.
use magiskboot_build.Prelude.{
  ◌+◌, ◌≤◌, ltb, ℤ, Bool, true, false, Option, none, some, ◌∷◌, length, length-append, ◌≡◌, refl,
  arith, inl, inr, Bool-cases,
}
use magiskboot_build.Sys.{ok, Post, Post-bind, Post-refl, Post-mono}
use magiskboot_build.Win.Api.{Api, Str}
use magiskboot_build.Win.Flags.{path_max}
use magiskboot_build.Win.Proc.{Proc, steps}
use magiskboot_build.Fd.Open.{fd_get_path}
use magiskboot_build.At.Path.{joined, is_dirfd, join_path, get_path_at}

module _ {W : Type 0} (api : Api W) (ndebug : Bool) (dirfd : ℤ) (name : Str) where
  -- The descriptor is a directory's, its path is `parent`, and the result is the two with a slash
  -- between them, which fit in the buffer.
  pub Resolved : (p : Proc W) → Option Str → Type 0
  Resolved p none = Unit
  Resolved p (some real) =
      (parent : Str) × (q r : Proc W) × (length real ≤ path_max)
      × (real ≡ joined parent name)
      × (is_dirfd api ndebug dirfd p ≡ ok true q)
      × (fd_get_path api dirfd q ≡ ok (some parent) r)

  abbrev Fits : (parent : Str) → Option Str → Type 0
  Fits parent none = Unit
  Fits parent (some real) = (length real ≤ path_max) × (real ≡ joined parent name)

  join_path-Fits :
      (parent : Str) (r : Proc W)
      → Post (λ path q. Fits parent path) (join_path api ndebug parent name r)
  unfolding join_path steps
  join_path-Fits parent r = elim (Bool-cases (ltb path_max (length parent + 1 + length name))) [
    | inl long ↦ rw long tt
    | inr fits ↦ elim (Bool-cases (api.malloc r.sys).0) [
      | inl got ↦ rw (fits, got) (fit fits, refl)
      | inr null ↦ rw (fits, null) tt
    ]
  ]
    where
      fit :
          ltb path_max (length parent + 1 + length name) ≡ false
          → length (joined parent name) ≤ path_max
      fit h = rw (length-append parent (b'/' ∷ name)) (ground arith)

  -- A path that `__get_path_at` returns is the path of the descriptor, which is a directory's, and
  -- the name with a slash between them, and has at most `PATH_MAX` bytes, so that `snprintf`
  -- never cuts it.
  pub get_path_at-Resolved :
      (p : Proc W) → Post (λ path s. Resolved p path) (get_path_at api ndebug dirfd name p)
  unfolding get_path_at steps Resolved
  get_path_at-Resolved p =
      Post-bind (λ dir q. is_dirfd api ndebug dirfd p ≡ ok dir q) (λ path s. Resolved p path)
        (is_dirfd api ndebug dirfd p) _ (Post-refl (is_dirfd api ndebug dirfd p))
        (elim [
          | false ↦ λ q d. tt
          | true ↦ λ q d.
              Post-bind (λ path r. fd_get_path api dirfd q ≡ ok path r) (λ path s. Resolved p path)
                (fd_get_path api dirfd q) _ (Post-refl (fd_get_path api dirfd q))
                (elim [
                  | none ↦ λ r e. tt
                  | some parent ↦ λ r e.
                      Post-mono (λ path s. Fits parent path) (λ path s. Resolved p path) _
                        (join_path-Fits parent r)
                        (elim [
                          | none ↦ λ s f. tt
                          | some real ↦ λ s f. (parent, q, r, f.0, f.1, d, e)
                        ])
                ])
        ])
