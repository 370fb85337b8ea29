-- ===== src/Fd/Cache.antt =====
-- The cache of winsup/internal/fd.c, which says whether a descriptor was opened with `O_APPEND`.
pub mod Laws
pub mod Hit
mod Tests
use magiskboot_build.Prelude.{
  ℕ, zero, suc, ◌+◌, ◌-◌, ℤ, pos, minus_one, is_neg, ◌==◌, ltb, leb, Option, none, some, get_or,
  set, length, replicate, bit_and, if◌then◌else◌,
}
use magiskboot_build.Sys.{M}
use magiskboot_build.Win.Api.{Api}
use magiskboot_build.Win.Flags.{has, o_append}
use magiskboot_build.Win.Proc.{Proc, FdCache, call, pure, gets, aborts, modify, ◌>>=◌, ◌>>◌}

abbrev pub file_write_data : ℕ
file_write_data = 2

abbrev pub file_append_data : ℕ
file_append_data = 4

-- `__init_oflag_cache`, for an array of `open_max` entries.
unfoldable pub init_oflag_cache : (open_max : ℕ) → FdCache
init_oflag_cache open_max = record { oflags = replicate open_max minus_one; max_size = 0 }

-- The write to the cache, for an index within the array.
unfoldable pub store_oflag : (fd oflag : ℕ) → FdCache → FdCache
store_oflag fd oflag c = record {
  oflags = set c.oflags fd (pos (bit_and oflag o_append));
  max_size = if leb c.max_size fd then fd + 1 else c.max_size;
}

-- What the loop does with an entry whose descriptor is closed.
unfoldable pub forget : (fd : ℕ) → FdCache → FdCache
forget fd c = record {
  oflags = set c.oflags fd minus_one;
  max_size = if fd == c.max_size - 1 then c.max_size - 1 else c.max_size;
}

module _ {W : Type 0} where
  -- A descriptor outside of the array fails an assertion, or is a write out of bounds.
  unfoldable pub fd_cache_oflag : ℤ → ℕ → M (Proc W) (Unit {0})
  fd_cache_oflag (ℤ.negsuc n) oflag = aborts
  fd_cache_oflag (pos fd) oflag = do
    c ← gets (λ p. p.cache)
    if ltb fd (length c.oflags)
        then modify (λ p. record p { cache = store_oflag fd oflag p.cache })
        else aborts

  module _ (api : Api W) where
    unfoldable pub oflag_fallback : ℕ → M (Proc W) ℤ
    oflag_fallback h = do
      granted ← call (api.query_granted_access h)
      elim granted [
        | none ↦ pure (pos 0)
        | some a ↦
            if has a file_write_data
            then pure (pos 0)
            else pure (pos (if has a file_append_data then o_append else 0))
      ]

    -- The loop at `fd`. The rounds given are one more than `fd_cache_max_size`, which the loop
    -- never raises; a run that used them up would abort.
    unfoldable pub oflag_loop : (rounds fd h : ℕ) → M (Proc W) ℤ
    oflag_loop zero fd h p = aborts p
    oflag_loop (suc rounds) fd h p =
        let next = oflag_loop rounds (fd + 1) h in
        let forgotten = record p { cache = forget fd p.cache } in
        let oflag = get_or p.cache.oflags fd minus_one in
        if ltb fd p.cache.max_size
        then if is_neg oflag then next p else elim (api.get_osfhandle (pos fd) p.sys).0 [
          | none ↦ next (record forgotten { sys = (api.get_osfhandle (pos fd) p.sys).1 })
          | some other ↦
              if h == other
              then pure oflag (record p { sys = (api.get_osfhandle (pos fd) p.sys).1 })
              else next (record p { sys = (api.get_osfhandle (pos fd) p.sys).1 })
        ]
        else oflag_fallback h p

    -- `none` is `INVALID_HANDLE_VALUE`.
    unfoldable pub get_osfhandle_oflag : Option ℕ → M (Proc W) ℤ
    get_osfhandle_oflag none p = pure (pos 0) p
    get_osfhandle_oflag (some h) p = oflag_loop (suc p.cache.max_size) 0 h p
