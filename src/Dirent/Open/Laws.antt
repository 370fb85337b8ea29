-- ===== src/Dirent/Open/Laws.antt =====
-- The blocks and the descriptors of the functions that open and close a directory stream.
use magiskboot_build.Prelude.{
  ℕ, ◌+◌, ℤ, pos, is_neg, true, false, Bool-cases, Option, none, some, Option-cases, ◌≡◌, refl,
  arith, ◌≤◌, ◌⊎◌, inl, inr,
}
use magiskboot_build.Sys.{M, ok, Post, Post-bind, Post-refl, Post-mono}
use magiskboot_build.Win.Api.{Api, Str}
use magiskboot_build.Win.Proc.{Proc, call, malloc, steps}
use magiskboot_build.Win.Balance.{
  Moves, owned, Moves-pure, Moves-call, Moves-malloc, Moves-free, Moves-bind, Moves-then, Moves-if,
  Moves-errno, Moves-fail_with,
}
use magiskboot_build.Fd.Open.{fd_get_path}
use magiskboot_build.Fd.Open.Laws.{fd_get_path-Moves}
use magiskboot_build.Open.{wrap_open}
use magiskboot_build.At.Calls.{wrap_open-Balanced}
use magiskboot_build.At.Path.{is_dirfd}
use magiskboot_build.At.Path.Laws.{is_dirfd-Balanced}
use magiskboot_build.Dirent.{DirStub, DirApi}
use magiskboot_build.Dirent.Open.{
  o_path, open_stream, opendir_stub, stream_of, fdopendir, close_stream, closedir_stub,
}

Moves-live :
    {W A : Type 0} {g : A → ℕ} {m : M (Proc W) A}
    → Moves 0 g m
    → (p : Proc W) → Post (λ a q. q.live ≡ p.live + g a) (m p)
Moves-live {g} {m} h p =
    Post-mono (λ a q. q.live + 0 ≡ p.live + g a) (λ a q. q.live ≡ p.live + g a) (m p)
      (h.run p (omega arith)) λ a q e. omega arith

module _ {W : Type 0} (api : Api W) (dir : DirApi W) where
  open_stream-Moves : (path : Str) (fd : ℤ) → Moves 0 owned (open_stream api dir path fd)
  unfolding open_stream
  open_stream-Moves path fd = Moves-bind (malloc api) _ (Moves-malloc 0 api) (elim [
    | true ↦ Moves-bind (call (dir.opendir path)) _ (Moves-call 1 _) (elim [
      | none ↦ Moves-then (Moves-call 1 _) (Moves-then (Moves-free 0) (Moves-pure owned none))
      | some d ↦ Moves-pure owned (some (record { dirp = some d; fd = fd }))
    ])
    | false ↦ Moves-then (Moves-call 0 _) (Moves-pure owned none)
  ])

  pub opendir_stub-Moves : (path : Str) → Moves 0 owned (opendir_stub api dir path)
  unfolding opendir_stub
  opendir_stub-Moves path =
      Moves-bind (wrap_open api path o_path 0) _ (wrap_open-Balanced api path o_path 0)
        λ fd. Moves-if (is_neg fd) (Moves-pure owned none) (open_stream-Moves path fd)

  stream_of-Moves : (path : Str) (fd : ℤ) → Moves 1 owned (stream_of api dir path fd)
  unfolding stream_of
  stream_of-Moves path fd = Moves-bind (malloc api) _ (Moves-malloc 1 api) (elim [
    | true ↦ Moves-bind (call (dir.opendir path)) _ (Moves-call 2 _) (elim [
      | none ↦ Moves-then (Moves-free 1) (Moves-then (Moves-free 0) (Moves-pure owned none))
      | some d ↦
          Moves-then (Moves-free 1) (Moves-pure owned (some (record { dirp = some d; fd = fd })))
    ])
    | false ↦ Moves-then (Moves-free 0) (Moves-pure owned none)
  ])

  pub fdopendir-Moves : (fd : ℤ) → Moves 0 owned (fdopendir api dir false fd)
  unfolding fdopendir
  fdopendir-Moves fd = Moves-bind (is_dirfd api false fd) _ (is_dirfd-Balanced api fd) (elim [
    | true ↦ Moves-bind (fd_get_path api fd) _ (fd_get_path-Moves api fd) (elim [
      | none ↦ Moves-then (Moves-errno 0) (Moves-pure owned none)
      | some p ↦ stream_of-Moves p fd
    ])
    | false ↦ Moves-pure owned none
  ])

  close_stream-Moves : (d : Option ℕ) → Moves 1 (λ _. 1) (close_stream api dir d)
  close_stream-Moves none = Moves-pure (λ _. 1) tt
  close_stream-Moves (some d) = Moves-then (Moves-call 1 _) (Moves-pure (λ _. 1) tt)

  pub closedir_stub-Moves :
      (s : Option DirStub) → Moves (owned s) (λ _. 0) (closedir_stub api dir s)
  unfolding closedir_stub
  closedir_stub-Moves none = Moves-fail_with 0 _
  closedir_stub-Moves (some s) = Moves-then (close_stream-Moves s.dirp) (
      Moves-then
        (Moves-if (is_neg s.fd) (Moves-pure (λ _. 1) tt)
          (Moves-then (Moves-call 1 _) (Moves-pure (λ _. 1) tt)))
        (Moves-then (Moves-free 0) (Moves-pure (λ _. 0) (pos 0))))

  -- What `opendir` gives for `path` from `p` on: the descriptor that `open` gave, in a stream, or
  -- none. Without a stream `open` failed, or its descriptor was closed in the last call.
  abbrev pub Opens : Str → Proc W → Option DirStub → Proc W → Type 0
  Opens path p none q =
      (fd : ℤ) × (s : Proc W) × (wrap_open api path o_path 0 p ≡ ok fd s)
      × (((is_neg fd ≡ true) × (q ≡ s))
          ⊎ ((is_neg fd ≡ false) × (t : Proc W) × (q.sys ≡ (api.close fd t.sys).1)))
  Opens path p (some stub) q =
      (s : Proc W) × (wrap_open api path o_path 0 p ≡ ok stub.fd s)
      × (is_neg stub.fd ≡ false)
      × (d : ℕ) × (stub.dirp ≡ some d)

  open_stream-Opens :
      (path : Str) (p s : Proc W) (fd : ℤ)
      → wrap_open api path o_path 0 p ≡ ok fd s
      → is_neg fd ≡ false
      → Post (Opens path p) (open_stream api dir path fd s)
  unfolding open_stream steps
  open_stream-Opens path p s fd e n =
      let t = record s { sys = (api.malloc s.sys).1 } in
      let unopened = record t { sys = (dir.opendir path t.sys).1 } in
      elim (Bool-cases (api.malloc s.sys).0) [
        | inl got ↦ elim (Option-cases (dir.opendir path t.sys).0) [
          | inl failed ↦ rw (got, failed) (fd, s, e, inr (n, unopened, refl))
          | inr (d, opened) ↦ rw (got, opened) (s, e, n, d, refl)
        ]
        | inr failed ↦ rw failed (fd, s, e, inr (n, t, refl))
      ]

  -- When `opendir` returns a stream, its descriptor is the one that `open` gave for the path, and
  -- the stream of the C runtime is set. When it returns none, `open` had failed and nothing was done
  -- after it, or the descriptor of `open` was closed by the last call to the system.
  pub opendir_stub-Opens :
      (path : Str) (p : Proc W) → Post (Opens path p) (opendir_stub api dir path p)
  unfolding opendir_stub steps
  opendir_stub-Opens path p =
      Post-bind (λ fd s. wrap_open api path o_path 0 p ≡ ok fd s) (Opens path p)
        (wrap_open api path o_path 0 p) _ (Post-refl (wrap_open api path o_path 0 p))
        λ fd s e. elim (Bool-cases (is_neg fd)) [
          | inl neg ↦ rw neg (fd, s, e, inl (neg, refl))
          | inr n ↦ rw n (open_stream-Opens path p s fd e n)
        ]

  -- The blocks of `malloc` that a stream holds: when `opendir` or `fdopendir` returns in a build with
  -- assertions, one more block is held if there is a stream, and as many as before if not; and
  -- `closedir` of a stream gives a block back that is held, whatever the calls in it return.
  pub dir-live :
      (path : Str) (fd : ℤ) (stub : DirStub) (p : Proc W)
      → 1 ≤ p.live
      → Post (λ r q. q.live ≡ p.live + owned r) (opendir_stub api dir path p)
        × Post (λ r q. q.live ≡ p.live + owned r) (fdopendir api dir false fd p)
        × Post (λ _ q. q.live + 1 ≡ p.live) (closedir_stub api dir (some stub) p)
  dir-live path fd stub p h = (
    Moves-live (opendir_stub-Moves path) p,
    Moves-live (fdopendir-Moves fd) p,
    Post-mono (λ _ q. q.live + 1 ≡ p.live + 0) (λ _ q. q.live + 1 ≡ p.live)
        (closedir_stub api dir (some stub) p) ((closedir_stub-Moves (some stub)).run p h)
        (λ a q e. omega arith),
  )
