-- ===== src/Mmap/Deferred.antt =====
-- `close` and `fclose` of a tracked file in emsup/mmap_hack.c only leave a mark.
use magiskboot_build.Prelude.{
  ℕ, ℤ, pos, eqb, is_neg, Bool, true, false, ◌||◌, ◌&&◌, Option, none, some, is_some, ◌≡◌, refl,
  ◌∙◌, arith, if◌then◌else◌,
}
use magiskboot_build.Sys.{Ensures}
use magiskboot_build.Mmap.Defs.{
  MapEntry, State, Posix, wrap_close, wrap_fclose, mark_close, mark_fclose,
}
use magiskboot_build.Mmap.Entries.{tracked, All, filter_flag, Pairs, filter-Pairs, filter-All}
use magiskboot_build.Mmap.Counts.{Counts}
use magiskboot_build.Mmap.Delay.{Agrees}

-- The files that are closed once the program has closed `fd` too.
abbrev pub and_closed : ℤ → (ℤ → Bool) → ℤ → Bool
and_closed fd closed g = eqb g fd || closed g

mark-Agrees :
    (closed : ℤ → Bool) (fd : ℤ) (i : MapEntry)
    → eqb i.fd fd ≡ true
    → true ≡ and_closed fd closed i.fd
mark-Agrees closed fd i e = rw e

skip-Agrees :
    (closed : ℤ → Bool) (fd : ℤ) (i : MapEntry)
    → eqb i.fd fd ≡ false
    → Agrees closed i
    → Agrees (and_closed fd closed) i
skip-Agrees closed fd i e a = rw e a

-- The stream to close, with one of its own from `fclose`.
abbrev pub stream_after : Option ℕ → Option ℕ → Option ℕ
stream_after none old = old
stream_after (some f) old = some f

-- `j` is `i` after a close of `fd` was put off, by `fclose` of a stream or by `close`: an entry of `fd`
-- is marked and holds the stream if there is one; nothing else is changed.
pub record Marked (by_stream : Option ℕ) (fd : ℤ) (i j : MapEntry) : Type 0 where
  pub same_ptr : j.ptr ≡ i.ptr
  pub same_len : j.len ≡ i.len
  pub same_fd : j.fd ≡ i.fd
  pub want_close : j.want_close ≡ (i.want_close || eqb i.fd fd)
  pub fp : j.fp ≡ (if eqb i.fd fd then stream_after by_stream i.fp else i.fp)
  pub have_fp : j.have_fp ≡ (i.have_fp || (eqb i.fd fd && is_some by_stream))

skip-Marked :
    (by_stream : Option ℕ) (fd : ℤ) (i : MapEntry) → eqb i.fd fd ≡ false → Marked by_stream fd i i
skip-Marked by_stream fd i e = record {
  same_ptr = refl;
  same_len = refl;
  same_fd = refl;
  want_close = ground (arith, e);
  fp = rw e refl;
  have_fp = ground (arith, e);
}

close-Marked : (fd : ℤ) (i : MapEntry) → eqb i.fd fd ≡ true → Marked none fd i (mark_close i)
close-Marked fd i e = record {
  same_ptr = refl;
  same_len = refl;
  same_fd = refl;
  want_close = ground (arith, e);
  fp = rw e refl;
  have_fp = rw e (ground arith);
}

fclose-Marked :
    (f : ℕ) (fd : ℤ) (i : MapEntry) → eqb i.fd fd ≡ true → Marked (some f) fd i (mark_fclose f i)
fclose-Marked f fd i e = record {
  same_ptr = refl;
  same_len = refl;
  same_fd = refl;
  want_close = ground (arith, e);
  fp = rw e refl;
  have_fp = rw e (ground arith);
}

module _ {W : Type 0} {os : Posix W} (c : Counts os) (closed : ℤ → Bool) where
  -- What a put-off close leaves behind: the entries in their order, those of `fd` marked and with the
  -- stream if there is one, and every file closed as often as before.
  pub record Deferred (by_stream : Option ℕ) (fd : ℤ) (s : State W) (r : ℤ) (t : State W)
      : Type 0 where
    pub success : r ≡ pos 0
    pub kept : Pairs (Marked by_stream fd) s.maps t.maps
    pub closes : (g : ℤ) → c.closes t.sys.world g ≡ c.closes s.sys.world g
    pub marked : All (Agrees (and_closed fd closed)) t.maps

  -- When the marks of all entries of a file agree: closing a valid descriptor that has a tracked
  -- mapping reports success and closes nothing. The list keeps its entries, in their order, each with
  -- its address, length, descriptor and stream; those of the descriptor are marked, the others as
  -- before, so that the marks go on agreeing.
  pub wrap_close-Deferred :
      (ndebug : Bool) (fd : ℤ) (s : State W)
      → is_neg (os.fcntl_getfd fd s.sys).0 ≡ false
      → tracked fd s.maps ≡ true
      → All (Agrees closed) s.maps
      → Ensures (λ r t. Deferred none fd s r t) (wrap_close os ndebug fd s)
  unfolding wrap_close
  wrap_close-Deferred ndebug fd s valid t a =
      rw (valid, filter_flag fd mark_close (λ i. refl) s.maps, t)
        (record {
          success = refl;
          kept =
              filter-Pairs fd mark_close (λ i. refl) (Marked none fd) s.maps (close-Marked fd)
                (skip-Marked none fd);
          closes = λ g. c.fcntl_keeps fd g s.sys;
          marked =
              filter-All fd mark_close (λ i. refl) (Agrees closed) (Agrees (and_closed fd closed))
                s.maps (λ i e _. mark-Agrees closed fd i e) (skip-Agrees closed fd) a;
        })

  -- When the marks of all entries of a file agree: closing a stream whose valid descriptor has a
  -- tracked mapping reports success and closes nothing. The list keeps its entries, in their order,
  -- each with its address, length and descriptor; those of the descriptor are marked and hold the
  -- stream, the others are as before, so that the marks go on agreeing.
  pub wrap_fclose-Deferred :
      (ndebug : Bool) (f : ℕ) (s : State W)
      → is_neg (c.stream_fd f) ≡ false
      → tracked (c.stream_fd f) s.maps ≡ true
      → All (Agrees closed) s.maps
      → Ensures (λ r t. Deferred (some f) (c.stream_fd f) s r t) (wrap_fclose os ndebug (some f) s)
  unfolding wrap_fclose
  wrap_fclose-Deferred ndebug f s valid t a = rw (c.fileno_fd f s.sys) (
      rw (valid, filter_flag (c.stream_fd f) (mark_fclose f) (λ i. refl) s.maps, t)
        (record {
          success = refl;
          kept =
              filter-Pairs (c.stream_fd f) (mark_fclose f) (λ i. refl)
                (Marked (some f) (c.stream_fd f)) s.maps (fclose-Marked f (c.stream_fd f))
                (skip-Marked (some f) (c.stream_fd f));
          closes = λ g. c.fflush_keeps f g (os.fileno f s.sys).1 ∙ c.fileno_keeps f g s.sys;
          marked =
              filter-All (c.stream_fd f) (mark_fclose f) (λ i. refl) (Agrees closed)
                (Agrees (and_closed (c.stream_fd f) closed)) s.maps
                (λ i e _. mark-Agrees closed (c.stream_fd f) i e)
                (skip-Agrees closed (c.stream_fd f)) a;
        }))
