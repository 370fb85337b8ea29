-- ===== src/Fd/Cache/Tests.antt =====
-- The cache of winsup/internal/fd.c on the system of Win/Example, where descriptor 3 stands for
-- handle 3.
use magiskboot_build.Prelude.{
  ℕ, ℤ, Option, none, ltb, ◌<◌, pos, minus_one, some, [], ◌∷◌, ◌≡◌, ◌≢◌, refl, arith, bit_and,
  if◌then◌else◌,
}
use magiskboot_build.Errno.{ebadf}
use magiskboot_build.Win.Api.{Api}
use magiskboot_build.Sys.{Sys, Ensures}
use magiskboot_build.Win.Flags.{o_append}
use magiskboot_build.Win.Proc.{Proc, ◌>>◌}
use magiskboot_build.Win.Example.{Opened, example_api, example_proc}
use magiskboot_build.Fd.Cache.{init_oflag_cache, fd_cache_oflag, get_osfhandle_oflag}
use magiskboot_build.Fd.Cache.Laws.{
  Within, IsAnswer, init_oflag_cache-Within, get_osfhandle_oflag-Within,
}
use magiskboot_build.Fd.Cache.Hit.{LooksUp, fd_cache_oflag-get_osfhandle_oflag}

abbrev fresh : Proc Opened
fresh = record example_proc { cache = init_oflag_cache 6 }

get_osfhandle_oflag-Within_example :
    Ensures (λ r q. IsAnswer r × Within q.cache) (get_osfhandle_oflag example_api (some 5) fresh)
get_osfhandle_oflag-Within_example =
    get_osfhandle_oflag-Within example_api (some 5) fresh (init_oflag_cache-Within 6)

-- Descriptors 3 and above are open; any other answer sets `errno`.
abbrev table_of : Opened → ℤ → Option ℕ
table_of w (pos n) = if ltb n 3 then none else some n
table_of w (ℤ.negsuc n) = none

abbrev asked : Option ℕ → Sys Opened → Option ℕ × Sys Opened
asked none s = (none, record s { errno = ebadf })
asked (some h) s = (some h, s)

asked_lem : (o : Option ℕ) (s : Sys Opened) → ((asked o s).0 ≡ o) × ((asked o s).1.world ≡ s.world)
asked_lem none s = (refl, refl)
asked_lem (some h) s = (refl, refl)

abbrev table_api : Api Opened
table_api = record example_api { get_osfhandle = λ fd s. asked (table_of s.world fd) s }

table-LooksUp : LooksUp table_api table_of
table-LooksUp = record {
  answer = λ fd s. (asked_lem (table_of s.world fd) s).0;
  keeps = λ fd s. (asked_lem (table_of s.world fd) s).1;
}

smaller : (j : ℕ) → j < 3 → table_of example_proc.sys.world (pos j) ≢ some 3
smaller j low e = ground arith

-- Descriptors 0 and 1 have an entry that is out of date.
abbrev stale : Proc Opened
stale = record example_proc {
  cache = record { oflags = pos 8 ∷ pos 0 ∷ minus_one ∷ minus_one ∷ minus_one ∷ []; max_size = 2 };
}

fd_cache_oflag-get_osfhandle_oflag_example :
    Ensures
      (λ r q. r ≡ pos (bit_and 9 o_append))
      ((fd_cache_oflag (pos 3) 9 >> get_osfhandle_oflag table_api (some 3)) stale)
fd_cache_oflag-get_osfhandle_oflag_example =
    fd_cache_oflag-get_osfhandle_oflag table_api table_of table-LooksUp 3 3 9 stale refl smaller
      (ground arith)
