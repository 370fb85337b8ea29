-- ===== src/Fd/Cache/Hit.antt =====
-- What the cache of winsup/internal/fd.c answers about a descriptor that `__fd_cache_oflag` was
-- called on.
use magiskboot_build.Prelude.{
  ℕ, zero, suc, ◌+◌, ◌<◌, ℤ, pos, minus_one, is_neg, ◌==◌, ==_iff, ltb, true, Option, some,
  get_or-set-same, get_or-set-other, length, ◌≡◌, ◌≢◌, refl, ◌∙◌, sym, ap, inl, inr, arith,
  Bool-cases, Option-cases, bit_and,
}
use magiskboot_build.Sys.{Sys, Ensures}
use magiskboot_build.Win.Api.{Api}
use magiskboot_build.Win.Flags.{o_append}
use magiskboot_build.Win.Proc.{Proc, FdCache, steps, pure, ◌>>◌}
use magiskboot_build.Fd.Cache.{store_oflag, forget, fd_cache_oflag, oflag_loop, get_osfhandle_oflag}
use magiskboot_build.Fd.Cache.Laws.{entry}

lt→ltb : (a b : ℕ) → a < b → ltb a b ≡ true
lt→ltb a b h = ground arith

same_handle : (a : ℕ) → (a == a) ≡ true
same_handle a = ground arith

-- `_get_osfhandle` answers by a table of the world, and does nothing to the world: for a descriptor
-- that is not open it may set `errno`.
pub record LooksUp {W : Type 0} (api : Api W) (table : W → ℤ → Option ℕ) : Type 0 where
  pub answer : (fd : ℤ) (s : Sys W) → (api.get_osfhandle fd s).0 ≡ table s.world fd
  pub keeps : (fd : ℤ) (s : Sys W) → (api.get_osfhandle fd s).1.world ≡ s.world

module _ {W : Type 0} (api : Api W) (table : W → ℤ → Option ℕ) (looks_up : LooksUp api table)
    (w : W) (fd h : ℕ) (held : table w (pos fd) ≡ some h)
    (first : (j : ℕ) → j < fd → table w (pos j) ≢ some h) where
  -- What is asked in the world `w`.
  answer_in : (g : ℤ) (s : Sys W) → s.world ≡ w → (api.get_osfhandle g s).0 ≡ table w g
  answer_in g s e = looks_up.answer g s ∙ ap (λ v. table v g) e

  keeps_in : (g : ℤ) (s : Sys W) → s.world ≡ w → (api.get_osfhandle g s).1.world ≡ w
  keeps_in g s e = looks_up.keeps g s ∙ e

  module _ (x : ℕ) where
    at_fd :
        (rounds : ℕ) (p : Proc W)
        → p.sys.world ≡ w
        → fd < p.cache.max_size
        → entry p.cache fd ≡ pos x
        → Ensures (λ r q. r ≡ pos x) (oflag_loop api (suc rounds) fd h p)
    unfolding oflag_loop pure
    at_fd rounds p same low e =
        rw (lt→ltb fd p.cache.max_size low, e, answer_in (pos fd) p.sys same, held, same_handle h) e

    forget-keeps :
        (i : ℕ) (c : FdCache)
        → i < fd
        → fd < c.max_size
        → entry c fd ≡ pos x
        → (fd < (forget i c).max_size) × (entry (forget i c) fd ≡ pos x)
    unfolding forget
    forget-keeps i c below low e =
        (ground arith, get_or-set-other c.oflags i fd _ _ (λ same. omega arith) ∙ e)

    at_index :
        (rounds i : ℕ) (p : Proc W)
        → p.sys.world ≡ w
        → i ≡ fd
        → fd < p.cache.max_size
        → entry p.cache fd ≡ pos x
        → Ensures (λ r q. r ≡ pos x) (oflag_loop api (suc rounds) i h p)
    at_index rounds i p world same low e = rw same (at_fd rounds p world low e)

    before_fd :
        (k rounds i : ℕ) (p : Proc W)
        → p.sys.world ≡ w
        → fd ≡ i + k
        → k < rounds
        → fd < p.cache.max_size
        → entry p.cache fd ≡ pos x
        → Ensures (λ r q. r ≡ pos x) (oflag_loop api rounds i h p)
    unfolding oflag_loop pure
    before_fd k zero i p world at more low e = ground arith
    before_fd zero (suc rounds) i p world at more low e =
        at_index rounds i p world (omega arith) low e
    before_fd (suc k) (suc rounds) i p world at more low e =
        elim (Bool-cases (is_neg (entry p.cache i))) [
          | inl skip ↦
              rw (lt→ltb i p.cache.max_size (omega arith), skip)
                (before_fd k rounds (i + 1) p world (omega arith) (omega arith) low e)
          | inr cached ↦ elim (Option-cases (table w (pos i))) [
            | inl closed ↦
                rw
                  (
                    lt→ltb i p.cache.max_size (omega arith),
                    cached,
                    answer_in (pos i) p.sys world,
                    closed,
                  )
                  (before_fd k rounds (i + 1) _ (keeps_in (pos i) p.sys world) (omega arith)
                    (omega arith) (forget-keeps i p.cache (omega arith) low e).0
                    (forget-keeps i p.cache (omega arith) low e).1)
            | inr (other, valid) ↦ elim (Bool-cases (h == other)) [
              | inl same ↦
                  absurd (first i (omega arith) (valid ∙ ap some (sym ((==_iff h other).0 same))))
              | inr differs ↦
                  rw
                    (
                      lt→ltb i p.cache.max_size (omega arith),
                      cached,
                      answer_in (pos i) p.sys world,
                      valid,
                      differs,
                    )
                    (before_fd k rounds (i + 1) _ (keeps_in (pos i) p.sys world) (omega arith)
                      (omega arith) low e)
            ]
          ]
        ]

  -- The answer in the world `w`, at which `first` and `held` look.
  fd_cache_oflag_lem :
      (oflag : ℕ) (p : Proc W)
      → p.sys.world ≡ w
      → fd < length p.cache.oflags
      → Ensures
          (λ r q. r ≡ pos (bit_and oflag o_append))
          ((fd_cache_oflag (pos fd) oflag >> get_osfhandle_oflag api (some h)) p)
  unfolding fd_cache_oflag get_osfhandle_oflag store_oflag steps
  fd_cache_oflag_lem oflag p world low = rw (lt→ltb fd (length p.cache.oflags) low) (
      before_fd (bit_and oflag o_append) fd _ 0 _ world (omega arith) (ground arith) (ground arith)
        (get_or-set-same p.cache.oflags fd _ minus_one low))

module _ {W : Type 0} (api : Api W) (table : W → ℤ → Option ℕ) (looks_up : LooksUp api table) where
  -- When `_get_osfhandle` answers by what the world holds and changes nothing but `errno` and the last
  -- error: suppose that the descriptor `fd` stands for the handle `h`, and that no smaller one does.
  -- After `__fd_cache_oflag(fd, oflag)`, for `fd` within the array, whatever else the cache holds,
  -- descriptors that are closed by now included, `__get_osfhandle_oflag(h)` is `oflag & O_APPEND`.
  pub fd_cache_oflag-get_osfhandle_oflag :
      (fd h oflag : ℕ) (p : Proc W)
      → table p.sys.world (pos fd) ≡ some h
      → ((j : ℕ) → j < fd → table p.sys.world (pos j) ≢ some h)
      → fd < length p.cache.oflags
      → Ensures
          (λ r q. r ≡ pos (bit_and oflag o_append))
          ((fd_cache_oflag (pos fd) oflag >> get_osfhandle_oflag api (some h)) p)
  fd_cache_oflag-get_osfhandle_oflag fd h oflag p held first =
      fd_cache_oflag_lem api table looks_up p.sys.world fd h held first oflag p refl
