-- ===== src/Dirent/Read/Laws.antt =====
-- What `_readdir_stub` of winsup/dirent.c stores for an entry.
use magiskboot_build.Prelude.{
  ℕ, zero, suc, ◌-◌, ◌^◌, ◌≤◌, ◌<◌, min, ◌==◌, ℤ, pos, is_neg, is_zero, Bool, true, false,
  Bool-cases, Option, none, some, Option-cases, List, [], ◌∷◌, ◌++◌, take, length, contains, ◌≡◌,
  ◌⊎◌, inl, inr, refl, ap, ◌∙◌, arith, if◌then◌else◌,
}
use magiskboot_build.Sys.{Sys, ok, Post, Post-bind, Post-refl}
use magiskboot_build.Win.Api.{Api, Str, Stat}
use magiskboot_build.At.Defs.{at_symlink_nofollow, fstatat}
use magiskboot_build.Win.Proc.{Proc, call, assert, pure, steps, ◌>>=◌, ◌>>◌}
use magiskboot_build.Strlcpy.Laws.{strlcpy_lem}
use magiskboot_build.Dirent.{Entry, DirentStub, DirStub, DirApi, seek_cur}
use magiskboot_build.Dirent.Read.{
  type_of_mode, name_size, clone, entry_mode, read_stream, readdir_stub,
}

-- The C string in an array of bytes.
pub c_string : List ℕ → Str
c_string [] = []
c_string (c ∷ cs) = let rest = c_string cs in if c == 0 then [] else c ∷ rest

contains-take : (n : ℕ) (s : Str) → contains 0 s ≡ false → contains 0 (take n s) ≡ false
contains-take zero s h = refl
contains-take (suc n) [] h = refl
contains-take (suc n) (c ∷ s) h = ground (arith, contains-take n s)

c_string-append : (s rest : Str) → contains 0 s ≡ false → c_string (s ++ (0 ∷ rest)) ≡ s
unfolding c_string
c_string-append [] rest h = refl
c_string-append (c ∷ s) rest h =
    let other : (c == 0) ≡ false = ground arith in
    rw other (ap (λ (l : Str). c ∷ l) (c_string-append s rest (ground arith)))

-- What the C runtime says of an entry: the name is a string that is not empty and shorter than 2^16
-- bytes, and `d_namlen` is its length.
abbrev pub Named : Entry → Type 0
Named e =
    (contains 0 e.d_name ≡ false)
    × (e.d_namlen ≡ length e.d_name)
    × (1 ≤ length e.d_name)
    × (length e.d_name < 2 ^ 16)

-- The copied name is the entry's without its last byte, or its first 259 bytes.
pub Cloned : Entry → (st_mode : ℕ) → DirentStub → Type 0
Cloned e st_mode res =
    (c_string res.d_name ≡ take (min name_size (length e.d_name) - 1) e.d_name)
    × (res.d_namlen ≡ length e.d_name)
    × (res.d_type ≡ type_of_mode st_mode)
    × (res.d_ino ≡ e.d_ino)

clone-Cloned :
    (e : Entry) (st_mode : ℕ) (old : DirentStub)
    → Named e
    → name_size ≤ length old.d_name
    → Cloned e st_mode (clone e st_mode old)
unfolding Cloned clone
clone-Cloned e st_mode old h space =
    let size = min name_size e.d_namlen in
    let len = h.1 in
    let given : (size == 0) ≡ false = ground (arith, h.1, h.2) in
    let copied = rw given at (strlcpy_lem old.d_name e.d_name size (omega arith) h.0) in
    (
      rw copied (
          c_string-append (take (size - 1) e.d_name) _ (contains-take (size - 1) e.d_name h.0)
          ∙ ap (λ (n : ℕ). take (min name_size n - 1) e.d_name) h.1),
      rw copied (omega (arith, h.3)),
      refl,
      refl,
    )

module _ {W : Type 0} (api : Api W) (dir : DirApi W) where
  -- The mode that an entry's type is taken from: the one that `fstatat` of the name without
  -- following a link gives, or with `NDEBUG` whatever the variable held.
  pub EntryMode : (ndebug : Bool) (fd : ℤ) → Str → (uninit m : ℕ) → Type 0
  EntryMode ndebug fd name uninit m =
      ((ndebug ≡ true) × (m ≡ uninit))
      ⊎ ((t : Proc W) × (u : Proc W) × (st : Stat) × (fstatat api ndebug fd name at_symlink_nofollow
              t
            ≡ ok (some st) u)
          × (m ≡ st.st_mode))

  entry_mode-EntryMode :
      (ndebug : Bool) (fd : ℤ) (name : Str) (uninit : ℕ) (p : Proc W)
      → Post (λ m q. EntryMode ndebug fd name uninit m) (entry_mode api dir ndebug fd name uninit p)
  unfolding entry_mode EntryMode steps
  entry_mode-EntryMode true fd name uninit p = inl (refl, refl)
  entry_mode-EntryMode false fd name uninit p =
      Post-bind (λ buf q. fstatat api false fd name at_symlink_nofollow p ≡ ok buf q)
        (λ m q. EntryMode false fd name uninit m) (fstatat api false fd name at_symlink_nofollow p)
        _ (Post-refl (fstatat api false fd name at_symlink_nofollow p))
        (elim [ none ↦ λ q e. tt | some st ↦ λ q e. inr (p, q, st, e, refl) ])

  -- A result of `readdir`: none, or the copy of an entry that the C runtime gave.
  pub Read : (ndebug : Bool) (fd : ℤ) (uninit : ℕ) → Option DirentStub → Type 0
  Read ndebug fd uninit r =
      (r ≡ none)
      ⊎ ((d : ℕ) × (s : Sys W) × (e : Entry) × (m : ℕ) × (new : DirentStub) × (r ≡ some new)
          × ((dir.readdir d s).0 ≡ some e)
          × EntryMode ndebug fd e.d_name uninit m
          × Cloned e m new)

  module _ (named : (d : ℕ) (s : Sys W) (e : Entry) → (dir.readdir d s).0 ≡ some e → Named e) where
    after_mode :
        (ndebug : Bool) (fd : ℤ) (uninit : ℕ) (res : DirentStub) (d : ℕ) (s : Sys W) (e : Entry)
        (m : ℕ) (q : Proc W)
        → name_size ≤ length res.d_name
        → (dir.readdir d s).0 ≡ some e
        → EntryMode ndebug fd e.d_name uninit m
        → Post
            (λ r t. Read ndebug fd uninit r)
            ((assert ndebug (do moved ← call (dir.lseek fd (pos 1) seek_cur); pure (is_zero moved))
                >> pure (some (clone e m res)))
              q)
    unfolding Read steps
    after_mode true fd uninit res d s e m q space got mode =
        inr
          (d, s, e, m, clone e m res, refl, got, mode, clone-Cloned e m res (named d s e got) space)
    after_mode false fd uninit res d s e m q space got mode =
        elim (Bool-cases (is_zero (dir.lseek fd (pos 1) seek_cur q.sys).0)) [
          | inl z ↦ rw z (
              inr (
                d,
                s,
                e,
                m,
                clone e m res,
                refl,
                got,
                mode,
                clone-Cloned e m res (named d s e got) space,
              ))
          | inr n ↦ rw n tt
        ]

    read_stream-Read :
        (ndebug : Bool) (d : ℕ) (fd : ℤ) (uninit : ℕ) (res : DirentStub) (p : Proc W)
        → name_size ≤ length res.d_name
        → Post (λ r q. Read ndebug fd uninit r) (read_stream api dir ndebug d fd uninit res p)
    unfolding read_stream call ◌>>=◌ pure Read
    read_stream-Read ndebug d fd uninit res p space =
        let s = record p { sys = (dir.readdir d p.sys).1 } in
        elim (Option-cases (dir.readdir d p.sys).0) [
          | inl none_left ↦ rw none_left (inl refl)
          | inr (e, got) ↦ rw got (
              Post-bind (λ m q. EntryMode ndebug fd e.d_name uninit m)
                (λ r q. Read ndebug fd uninit r) (entry_mode api dir ndebug fd e.d_name uninit s) _
                (entry_mode-EntryMode ndebug fd e.d_name uninit s)
                λ m q mode. after_mode ndebug fd uninit res d p.sys e m q space got mode)
        ]

    -- When the C runtime gives names that are not empty, with their lengths, and the static structure
    -- has room for 260 bytes: a result of `readdir` is null, or it is the copy of an entry that the
    -- C runtime gave. Its name is the entry's without the last byte, or the first 259 bytes of a
    -- longer one; `d_namlen` is the length of the whole name; and its type is the one of the mode
    -- that `fstatat` gives, in a build with assertions.
    pub readdir_stub-Read :
        (ndebug : Bool) (stub : DirStub) (uninit : ℕ) (res : DirentStub) (p : Proc W)
        → name_size ≤ length res.d_name
        → Post
            (λ r q. Read ndebug stub.fd uninit r)
            (readdir_stub api dir ndebug (some stub) uninit res p)
    unfolding readdir_stub steps Read
    readdir_stub-Read ndebug stub uninit res p space = elim (Option-cases stub.dirp) [
      | inl null ↦ rw null (inl refl)
      | inr (d, given) ↦ elim (Bool-cases (is_neg stub.fd)) [
        | inl neg ↦ rw (given, neg) (inl refl)
        | inr n ↦ rw (given, n) (read_stream-Read ndebug d stub.fd uninit res p space)
      ]
    ]

  -- As documented, a move of `lseek` by one byte from the current position gives a position that is
  -- not 0, or -1.
  abbrev pub Moving : Type 0
  Moving = (fd : ℤ) (s : Sys W) → is_zero (dir.lseek fd (pos 1) seek_cur s).0 ≡ false

  read_stream-none :
      (d : ℕ) (fd : ℤ) (uninit : ℕ) (res : DirentStub) (p : Proc W)
      → Moving
      → Post (λ r q. r ≡ none) (read_stream api dir false d fd uninit res p)
  unfolding read_stream steps
  read_stream-none d fd uninit res p h =
      let s = record p { sys = (dir.readdir d p.sys).1 } in
      elim (Option-cases (dir.readdir d p.sys).0) [
        | inl none_left ↦ rw none_left refl
        | inr (e, got) ↦ rw got (
            Post-bind (λ m q. EntryMode false fd e.d_name uninit m) (λ r q. r ≡ none)
              (entry_mode api dir false fd e.d_name uninit s) _
              (entry_mode-EntryMode false fd e.d_name uninit s) λ m q mode. rw (h fd q.sys) tt)
      ]

  -- When `lseek` by one byte does not give 0, as documented, `readdir` returns no entry in a build
  -- with assertions: it asserts that the result of `lseek` is 0, so it ends the program at the first
  -- entry, and what it returns is null.
  pub readdir_stub-none :
      (stub : DirStub) (uninit : ℕ) (res : DirentStub) (p : Proc W)
      → Moving
      → Post (λ r q. r ≡ none) (readdir_stub api dir false (some stub) uninit res p)
  unfolding readdir_stub steps
  readdir_stub-none stub uninit res p h = elim (Option-cases stub.dirp) [
    | inl null ↦ rw null refl
    | inr (d, given) ↦ elim (Bool-cases (is_neg stub.fd)) [
      | inl neg ↦ rw (given, neg) refl
      | inr n ↦ rw (given, n) (read_stream-none d stub.fd uninit res p h)
    ]
  ]
