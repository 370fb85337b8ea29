-- ===== src/WinErr/Laws.antt =====
-- What a caller learns from `errno` after `__set_errno_via_winerr`.
use magiskboot_build.Prelude.{
  ℕ, zero, suc, ◌==◌, Bool, true, false, List, [], ◌∷◌, ◌≡◌, refl, arith, get_or, ltb,
  if◌then◌else◌, Bool-cases, inl, inr,
}
use magiskboot_build.Errno.{Errno, no_error, unknown, is_no_error}
use magiskboot_build.Sys.{Sys}
use magiskboot_build.WinErr.Map.{winerr_map}
use magiskboot_build.WinErr.Defs.{winerr_map_size, winerr_entry, set_errno_via_winerr}

abbrev pub is_unknown : Errno → Bool
is_unknown unknown = true
is_unknown _ = false

-- The table has 9000 entries.
winerr_map_size_lem : winerr_map_size ≡ 9000
unfolding winerr_map_size
winerr_map_size_lem = refl

none_unknown : List Errno → Bool
none_unknown [] = true
none_unknown (e ∷ r) = if is_unknown e then false else none_unknown r

none_unknown-get_or :
    (l : List Errno) (i : ℕ) → none_unknown l ≡ true → is_unknown (get_or l i no_error) ≡ false
unfolding none_unknown
none_unknown-get_or [] i h = refl
none_unknown-get_or (e ∷ r) zero h = ground arith
none_unknown-get_or (e ∷ r) (suc i) h = none_unknown-get_or r i (ground arith)

-- No entry is the -1 that stands for an unmapped error.
table_known : none_unknown winerr_map ≡ true
unfolding none_unknown winerr_map
table_known = refl

winerr_entry-known : (winerr : ℕ) → is_unknown (winerr_entry winerr) ≡ false
unfolding winerr_entry
winerr_entry-known winerr = none_unknown-get_or winerr_map winerr table_known

-- `errno` is cleared exactly for `NO_ERROR`, whatever it was before; it is -1 exactly for an error
-- that the table leaves out or maps to 0; any other error gives its entry of the table. The rest
-- of the system is left alone.
pub set_errno_via_winerr_lem :
    {W : Type 0} (winerr : ℕ) (s : Sys W)
    → let t = set_errno_via_winerr winerr s in
      (is_no_error t.errno ≡ (winerr == 0))
      × (is_unknown t.errno ≡ (
          if winerr == 0
          then false
          else if ltb winerr 9000
          then is_no_error (winerr_entry winerr)
          else true))
      × (is_no_error t.errno ≡ false → is_unknown t.errno ≡ false → t.errno ≡ winerr_entry winerr)
      × (t.last_error ≡ s.last_error)
      × (t.world ≡ s.world)
unfolding set_errno_via_winerr
set_errno_via_winerr_lem winerr s = elim (Bool-cases (winerr == 0)) [
  | inl z ↦ rw z (refl, refl, (λ a b. absurd (cc)), refl, refl)
  | inr z ↦ elim (Bool-cases (ltb winerr 9000)) [
    | inl low ↦ elim (Bool-cases (is_no_error (winerr_entry winerr))) [
      | inl e ↦ rw (winerr_map_size_lem, z, low, e) (refl, refl, (λ a b. absurd (cc)), refl, refl)
      | inr e ↦
          rw (winerr_map_size_lem, z, low, e)
            (e, winerr_entry-known winerr, (λ a b. refl), refl, refl)
    ]
    | inr high ↦ rw (winerr_map_size_lem, z, high) (refl, refl, (λ a b. absurd (cc)), refl, refl)
  ]
]
