-- ===== src/Mmap/Defs.antt =====
-- The functions of emsup/mmap_hack.c, over the system calls that they make.
use magiskboot_build.Prelude.{
  ℕ, ℤ, pos, minus_one, is_neg, is_zero, eqb, Bool, true, false, not, ◌&&◌, Option, none, some,
  List, [], ◌∷◌, bit_and, ◌==◌, if◌then◌else◌,
}
use magiskboot_build.Errno.{ebadf}
use magiskboot_build.Sys.{Sys, Ext, M, ok, pure, gets, aborts, modify, ◌>>=◌, ◌>>◌, assert}

-- `fp` is `none` until the first write to it.
pub record MapEntry : Type 0 where
  pub ptr : ℕ
  pub len : ℕ
  pub fd : ℤ
  pub fp : Option ℕ
  pub have_fp : Bool
  pub want_close : Bool

pub record State (W : Type 0) : Type 0 where
  pub sys : Sys W
  pub maps : List MapEntry

-- The functions of libc that the file calls. `mmap` gives `none` for `MAP_FAILED`, and `malloc`
-- false for `NULL`.
pub record Posix (W : Type 0) : Type 0 where
  pub mmap : (addr len prot flags : ℕ) (fildes off : ℤ) → Ext W (Option ℕ)
  pub munmap : (addr len : ℕ) → Ext W ℤ
  pub malloc : Ext W Bool
  pub fcntl_getfd : ℤ → Ext W ℤ
  pub real_close : ℤ → Ext W ℤ
  pub real_fclose : ℕ → Ext W ℤ
  pub fileno : ℕ → Ext W ℤ
  pub fflush : ℕ → Ext W ℤ

abbrev pub prot_write : ℕ
prot_write = 2

abbrev pub map_shared : ℕ
map_shared = 1

abbrev pub eof : ℤ
eof = minus_one

-- The macro `filter_map_by_key_or`, for a handler that runs on every match.
abbrev pub filter_map_by_key :
    (MapEntry → Bool) → (MapEntry → MapEntry) → List MapEntry → List MapEntry × Bool
filter_map_by_key test handler [] = ([], false)
filter_map_by_key test handler (i ∷ rest) =
    let (rest', flag) = filter_map_by_key test handler rest in
    if test i then (handler i ∷ rest', true) else (i ∷ rest', flag)

-- The macro, for a handler that breaks at the first match: the match and the list without it.
abbrev pub first_by_key : (MapEntry → Bool) → List MapEntry → Option (MapEntry × List MapEntry)
first_by_key test [] = none
first_by_key test (i ∷ rest) =
    let found = first_by_key test rest in
    if test i
    then some (i, rest)
    else elim found [ none ↦ none | some (j, rest') ↦ some (j, i ∷ rest') ]

abbrev pub has_fd : ℤ → MapEntry → Bool
has_fd fd i = eqb i.fd fd

abbrev pub has_ptr : ℕ → MapEntry → Bool
has_ptr addr i = i.ptr == addr

abbrev pub mark_close : MapEntry → MapEntry
mark_close i = record i { want_close = true }

abbrev pub mark_fclose : ℕ → MapEntry → MapEntry
mark_fclose stream i = record i { want_close = true; fp = some stream; have_fp = true }

abbrev pub new_entry : (ptr len : ℕ) (fd : ℤ) → MapEntry
new_entry p n d = record {
  ptr = p;
  len = n;
  fd = d;
  fp = none;
  have_fp = false;
  want_close = false;
}

-- The test of `_mmap_stub_impl` for a shared writable mapping of a file.
abbrev pub wants_delay : (prot flags : ℕ) (fildes : ℤ) → Bool
wants_delay prot flags fildes =
    not (is_neg fildes) && not (bit_and prot prot_write == 0) && not (bit_and flags map_shared == 0)

module _ {W : Type 0} where
  abbrev pub call : {A : Type 0} → Ext W A → M (State W) A
  call e s = let (a, sys) = e s.sys in ok a (record s { sys = sys })

  abbrev pub set_maps : List MapEntry → M (State W) (Unit {0})
  set_maps l = modify (λ s. record s { maps = l })

  abbrev pub add_map : MapEntry → M (State W) (Unit {0})
  add_map i = modify (λ s. record s { maps = i ∷ s.maps })

  module _ (os : Posix W) (ndebug : Bool) where
    -- `assert(map)`, or the write through the null pointer, ends a run that has no memory.
    unfoldable pub mmap_stub : (addr len prot flags : ℕ) (fildes off : ℤ) → M (State W) (Option ℕ)
    mmap_stub addr len prot flags fildes off = do
      ptr ← call (os.mmap addr len prot flags fildes off)
      elim ptr [
        | none ↦ pure none
        | some p ↦
            if wants_delay prot flags fildes
            then (do
              got ← call os.malloc
              if got then add_map (new_entry p len fildes) >> pure (some p) else aborts)
            else pure (some p)
      ]

    unfoldable pub wrap_close : ℤ → M (State W) ℤ
    wrap_close fildes = do
      flags ← call (os.fcntl_getfd fildes)
      if is_neg flags then pure minus_one else do
        (maps, flag) ← gets (λ s. filter_map_by_key (has_fd fildes) mark_close s.maps)
        if flag then set_maps maps >> pure (pos 0) else call (os.real_close fildes)

    -- `none` is the null stream.
    unfoldable pub wrap_fclose : Option ℕ → M (State W) ℤ
    wrap_fclose none = modify (λ s. record s { sys = record (s.sys) { errno = ebadf } }) >> pure eof
    wrap_fclose (some stream) = do
      fildes ← call (os.fileno stream)
      if is_neg fildes then call (os.real_fclose stream) else do
        (maps, flag) ← gets (λ s. filter_map_by_key (has_fd fildes) (mark_fclose stream) s.maps)
        if flag
            then set_maps maps >> call (os.fflush stream) >> pure (pos 0)
            else call (os.real_fclose stream)

    -- A call of `fclose` on a pointer that was never written is undefined, and ends the run here.
    unfoldable pub close_entry : MapEntry → M (State W) (Unit {0})
    close_entry map =
        if map.have_fp
        then assert ndebug (elim map.fp [
          | none ↦ aborts
          | some fp ↦ call (os.real_fclose fp) >>= λ r. pure (is_zero r)
        ])
        else assert ndebug (call (os.real_close map.fd) >>= λ r. pure (is_zero r))

    unfoldable pub post_munmap_hook : MapEntry → ℕ → M (State W) (Unit {0})
    unfolding close_entry
    post_munmap_hook map len = do
      assert ndebug (pure (map.len == len))
      other ← gets (λ s. first_by_key (has_fd map.fd) s.maps)
      elim other [ none ↦ close_entry map | some (i, _) ↦ assert ndebug (pure i.want_close) ]

    unfoldable pub munmap_stub : (addr len : ℕ) → M (State W) ℤ
    unfolding post_munmap_hook
    munmap_stub addr len = do
      res ← call (os.munmap addr len)
      if is_neg res then pure res else do
        found ← gets (λ s. first_by_key (has_ptr addr) s.maps)
        elim found [
          | none ↦ pure res
          | some (i, rest) ↦ (do
            set_maps rest
            if i.want_close then post_munmap_hook i len else pure tt
            pure res)
        ]
