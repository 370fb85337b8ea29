-- ===== src/Fd/Cache/Laws.antt =====
-- The cache of winsup/internal/fd.c: what holds of it between calls, and what it answers.
use magiskboot_build.Prelude.{
  ℕ, zero, suc, ◌+◌, ◌-◌, ◌≤◌, ◌<◌, ℤ, pos, negsuc, minus_one, is_neg, ◌==◌, ltb, ltb→lt, leb,
  Option-cases, true, false, Option, none, some, get_or, get_or-set-other, get_or-set-default,
  get_or-set-every, get_or-replicate, length, ◌≡◌, ◌≢◌, ◌⊎◌, refl, sym, inl, inr, arith, Bool-cases,
  bit_and, if◌then◌else◌, ==_iff, ◌∙◌,
}
use magiskboot_build.Prelude.Bits.{bit_and_eight}
use magiskboot_build.Sys.{Post, Ensures}
use magiskboot_build.Win.Api.{Api}
use magiskboot_build.Win.Flags.{has, o_append}
use magiskboot_build.Win.Proc.{Proc, FdCache, steps, pure}
use magiskboot_build.Fd.Cache.{
  file_write_data, file_append_data, init_oflag_cache, store_oflag, forget, fd_cache_oflag,
  oflag_fallback, oflag_loop, get_osfhandle_oflag,
}

-- The entry of a descriptor.
abbrev pub entry : FdCache → ℕ → ℤ
entry c i = get_or c.oflags i minus_one

pub data IsFlag : ℤ → Type 0 where
  absent : IsFlag minus_one
  plain : IsFlag (pos 0)
  append : IsFlag (pos o_append)

-- An entry is -1, 0 or `O_APPEND`, and those from `fd_cache_max_size` on are -1.
pub record Within (c : FdCache) : Type 0 where
  pub flags : (i : ℕ) → IsFlag (entry c i)
  pub beyond : (i : ℕ) → c.max_size ≤ i → entry c i ≡ minus_one

pub init_oflag_cache-Within : (open_max : ℕ) → Within (init_oflag_cache open_max)
unfolding init_oflag_cache
init_oflag_cache-Within open_max = record {
  flags = λ i. rw (get_or-replicate open_max i minus_one) absent;
  beyond = λ i h. get_or-replicate open_max i minus_one;
}

IsFlag-bit_and : (oflag : ℕ) → IsFlag (pos (bit_and oflag o_append))
IsFlag-bit_and oflag = elim (bit_and_eight oflag) [
  | inl clear ↦ rw clear plain
  | inr kept ↦ rw kept append
]

store_oflag-Within : (fd oflag : ℕ) (c : FdCache) → Within c → Within (store_oflag fd oflag c)
unfolding store_oflag
store_oflag-Within fd oflag c w = record {
  flags = get_or-set-every IsFlag c.oflags fd _ minus_one (IsFlag-bit_and oflag) w.flags;
  beyond =
      λ i h. get_or-set-other c.oflags fd i _ minus_one (above i h).0 ∙ w.beyond i (above i h).1;
}
  where
    above :
        (i : ℕ)
        → (if leb c.max_size fd then fd + 1 else c.max_size) ≤ i
        → (fd ≢ i) × (c.max_size ≤ i)
    above i h = ((λ e. ground arith), ground arith)

forget-Within : (fd : ℕ) (c : FdCache) → fd < c.max_size → Within c → Within (forget fd c)
unfolding forget
forget-Within fd c low w = record {
  flags = get_or-set-every IsFlag c.oflags fd minus_one minus_one absent w.flags;
  beyond = λ i h. elim (Bool-cases (fd == i)) [
    | inl e ↦ rw (sym ((==_iff fd i).0 e)) (get_or-set-default c.oflags fd minus_one)
    | inr n ↦
        get_or-set-other c.oflags fd i minus_one minus_one (apart i n) ∙ w.beyond i (above i n h)
  ];
}
  where
    apart : (i : ℕ) → (fd == i) ≡ false → fd ≢ i
    apart i n e = ground arith

    above :
        (i : ℕ)
        → (fd == i) ≡ false
        → (if fd == c.max_size - 1 then c.max_size - 1 else c.max_size) ≤ i
        → c.max_size ≤ i
    above i n h = ground arith

-- The results of the search: no flag, or `O_APPEND`.
abbrev pub IsAnswer : ℤ → Type 0
IsAnswer r = (r ≡ pos 0) ⊎ (r ≡ pos o_append)

answer : (z : ℤ) → IsFlag z → is_neg z ≡ false → IsAnswer z
answer z absent h = absurd (cc)
answer z plain h = inl refl
answer z append h = inr refl

module _ {W : Type 0} (api : Api W) where
  oflag_fallback-Within :
      (h : ℕ) (p : Proc W)
      → Within p.cache
      → Ensures (λ r q. IsAnswer r × Within q.cache) (oflag_fallback api h p)
  unfolding oflag_fallback steps
  oflag_fallback-Within h p w = elim (Option-cases (api.query_granted_access h p.sys).0) [
    | inl failed ↦ rw failed (inl refl, w)
    | inr (a, granted) ↦ elim (Bool-cases (has a file_write_data)) [
      | inl write ↦ rw (granted, write) (inl refl, w)
      | inr read ↦ elim (Bool-cases (has a file_append_data)) [
        | inl adds ↦ rw (granted, read, adds) (inr refl, w)
        | inr neither ↦ rw (granted, read, neither) (inl refl, w)
      ]
    ]
  ]

  oflag_loop-Within :
      (rounds fd h : ℕ) (p : Proc W)
      → 0 < rounds
      → p.cache.max_size < rounds + fd
      → Within p.cache
      → Ensures (λ r q. IsAnswer r × Within q.cache) (oflag_loop api rounds fd h p)
  unfolding oflag_loop pure forget
  oflag_loop-Within zero fd h p more low w = ground arith
  oflag_loop-Within (suc rounds) fd h p more low w = elim (Bool-cases (ltb fd p.cache.max_size)) [
    | inr stop ↦ rw stop (oflag_fallback-Within h p w)
    | inl go ↦ elim (Bool-cases (is_neg (entry p.cache fd))) [
      | inl skip ↦ rw (go, skip) (oflag_loop-Within rounds (fd + 1) h p (left go) (omega arith) w)
      | inr cached ↦ elim (Option-cases (api.get_osfhandle (pos fd) p.sys).0) [
        | inl closed ↦
            rw (go, cached, closed)
              (oflag_loop-Within rounds (fd + 1) h _ (left go) (fewer go)
                (forget-Within fd p.cache (ltb→lt fd p.cache.max_size go) w))
        | inr (other, valid) ↦ elim (Bool-cases (h == other)) [
          | inl same ↦ rw (go, cached, valid, same) (answer _ (w.flags fd) cached, w)
          | inr differs ↦
              rw (go, cached, valid, differs)
                (oflag_loop-Within rounds (fd + 1) h _ (left go) (omega arith) w)
        ]
      ]
    ]
  ]
    where
      left : ltb fd p.cache.max_size ≡ true → 0 < rounds
      left go = omega (arith, ltb→lt fd p.cache.max_size go)

      fewer : ltb fd p.cache.max_size ≡ true → (forget fd p.cache).max_size < rounds + (fd + 1)
      fewer go = ground arith

  -- From a cache whose entries are -1, 0 or `O_APPEND`, and -1 from `fd_cache_max_size` on,
  -- `__get_osfhandle_oflag` returns, for a handle and for `INVALID_HANDLE_VALUE`, whatever the
  -- system answers about the descriptors; the result is 0 or `O_APPEND`, never -1, and the cache
  -- that it leaves is such a cache again.
  pub get_osfhandle_oflag-Within :
      (handle : Option ℕ) (p : Proc W)
      → Within p.cache
      → Ensures (λ r q. IsAnswer r × Within q.cache) (get_osfhandle_oflag api handle p)
  unfolding get_osfhandle_oflag pure
  get_osfhandle_oflag-Within none p w = (inl refl, w)
  get_osfhandle_oflag-Within (some h) p w =
      oflag_loop-Within (suc p.cache.max_size) 0 h p (omega arith) (omega arith) w

pub fd_cache_oflag-Within :
    {W : Type 0} (fd : ℤ) (oflag : ℕ) (p : Proc W)
    → Within p.cache
    → Post (λ _ q. Within q.cache) (fd_cache_oflag fd oflag p)
unfolding fd_cache_oflag steps
fd_cache_oflag-Within (negsuc n) oflag p w = tt
fd_cache_oflag-Within (pos fd) oflag p w = elim (Bool-cases (ltb fd (length p.cache.oflags))) [
  | inl low ↦ rw low (store_oflag-Within fd oflag p.cache w)
  | inr high ↦ rw high tt
]
