-- ===== src/Dirent/Seek/Laws.antt =====
-- How the position calls of winsup/dirent.c use the position of the descriptor.
use magiskboot_build.Prelude.{
  ℕ, suc, ℤ, pos, minus_one, is_neg, false, Option, none, some, ◌≡◌, ◌≢◌, refl, ◌⊎◌, inl, inr,
}
use magiskboot_build.Sys.{Sys, abort, Ensures}
use magiskboot_build.Win.Proc.{Proc, steps, ◌>>◌}
use magiskboot_build.Dirent.{DirStub, DirApi, seek_set}
use magiskboot_build.Dirent.Seek.{seek_fd, rewind_stream, rewinddir_stub, seek_stream, seekdir_stub}

-- As documented, `lseek` to a position from the start of the file returns that position, or -1.
abbrev pub Positions : {W : Type 0} → DirApi W → Type 0
Positions {W} dir =
    (fd : ℤ) (loc : ℕ) (s : Sys W)
    → ((dir.lseek fd (pos loc) seek_set s).0 ≡ pos loc)
      ⊎ ((dir.lseek fd (pos loc) seek_set s).0 ≡ minus_one)

module _ {W : Type 0} (dir : DirApi W) where
  seek_fd-away :
      (fd : ℤ) (loc : ℕ) (p : Proc W)
      → Positions dir
      → is_neg fd ≡ false
      → seek_fd dir false fd (pos (suc loc)) p ≡ abort
  unfolding seek_fd steps
  seek_fd-away fd loc p h n = elim (h fd (suc loc) p.sys) [
    | inl there ↦ rw (n, there) refl
    | inr failed ↦ rw (n, failed) refl
  ]

  seek_fd-start :
      (fd : ℤ) (p : Proc W)
      → is_neg fd ≡ false
      → ((s : Sys W) → (dir.lseek fd (pos 0) seek_set s).0 ≢ minus_one)
      → Positions dir
      → Ensures
          (λ r q. (s : Sys W) × (q.sys ≡ (dir.lseek fd (pos 0) seek_set s).1))
          (seek_fd dir false fd (pos 0) p)
  unfolding seek_fd steps
  seek_fd-start fd p n works h = elim (h fd 0 p.sys) [
    | inl there ↦ rw (n, there) (p.sys, refl)
    | inr failed ↦ absurd (works p.sys failed)
  ]

  seek_after_stream :
      (d : Option ℕ) (fd : ℤ) (loc : ℕ) (p : Proc W)
      → Positions dir
      → is_neg fd ≡ false
      → (seek_stream dir d (pos (suc loc)) >> seek_fd dir false fd (pos (suc loc))) p ≡ abort
  unfolding steps
  seek_after_stream none fd loc p h n = seek_fd-away fd loc p h n
  seek_after_stream (some d) fd loc p h n = seek_fd-away fd loc _ h n

  abbrev pub Rewound : ℤ → Unit {0} → Proc W → Type 0
  Rewound fd r q = (s : Sys W) × (q.sys ≡ (dir.lseek fd (pos 0) seek_set s).1)

  rewind_after_stream :
      (d : Option ℕ) (fd : ℤ) (p : Proc W)
      → Positions dir
      → is_neg fd ≡ false
      → ((s : Sys W) → (dir.lseek fd (pos 0) seek_set s).0 ≢ minus_one)
      → Ensures (Rewound fd) ((rewind_stream dir d >> seek_fd dir false fd (pos 0)) p)
  unfolding steps
  rewind_after_stream none fd p h n works = seek_fd-start fd p n works h
  rewind_after_stream (some d) fd p h n works = seek_fd-start fd _ n works h

  -- When `lseek` returns the position or -1, and it works for the start of the descriptor of the
  -- stream, which is not negative, then in a build with assertions `seekdir` to any place but 0 does
  -- not return, since it asserts that the result of `lseek` is 0; but `rewinddir` does, after the
  -- position of the descriptor was set.
  pub seekdir_stub-rewinddir_stub :
      (stub : DirStub) (loc : ℕ) (p : Proc W)
      → Positions dir
      → is_neg stub.fd ≡ false
      → ((s : Sys W) → (dir.lseek stub.fd (pos 0) seek_set s).0 ≢ minus_one)
      → (seekdir_stub dir false (some stub) (pos (suc loc)) p ≡ abort)
        × Ensures (Rewound stub.fd) (rewinddir_stub dir false (some stub) p)
  unfolding seekdir_stub rewinddir_stub
  seekdir_stub-rewinddir_stub stub loc p h n works = (
    seek_after_stream stub.dirp stub.fd loc p h n,
    rewind_after_stream stub.dirp stub.fd p h n works,
  )
