-- ===== src/Acl/Laws.antt =====
-- The attributes that `fchmod` of winsup/acl.c leaves.
use magiskboot_build.Prelude.{
  ℕ, ◌==◌, ==_iff, ℤ, pos, minus_one, true, not, Bool-cases, some, Option-cases, bit_and, bit_or,
  ◌≡◌, ◌⊎◌, refl, sym, ap, ◌∙◌, inl, inr, if◌then◌else◌,
}
use mathlib.Core.Path.{subst}
use magiskboot_build.WinErr.Defs.{set_errno_via_winerr}
use magiskboot_build.WinErr.Laws.{set_errno_via_winerr_lem}
use magiskboot_build.Prelude.Bits.{bit_and_one}
use magiskboot_build.Prelude.Digits.{bit_and_assoc, bit_and_or_distrib, bit_and_none, bit_or_none}
use magiskboot_build.Sys.{Sys, Ensures}
use magiskboot_build.Win.Api.{Api, FileInfo}
use magiskboot_build.Win.Flags.{
  has, s_iwrite_all, file_attribute_readonly, file_attribute_directory,
  file_attribute_reparse_point,
}
use magiskboot_build.Win.Proc.{Proc, steps}
use magiskboot_build.Acl.{not_readonly, new_attributes, apply_attributes, fchmod}

-- A mask that has no digit in common with the read-only bit.
cleared-keeps :
    (attributes mask : ℕ)
    → bit_and not_readonly mask ≡ mask
    → bit_and (bit_and attributes not_readonly) mask ≡ bit_and attributes mask
cleared-keeps attributes mask h =
    bit_and_assoc attributes not_readonly mask ∙ ap (bit_and attributes) h

set-keeps :
    (attributes mask : ℕ)
    → bit_and file_attribute_readonly mask ≡ 0
    → bit_and (bit_or attributes file_attribute_readonly) mask ≡ bit_and attributes mask
set-keeps attributes mask h =
    bit_and_or_distrib attributes file_attribute_readonly mask
    ∙ ap (bit_or (bit_and attributes mask)) h
    ∙ bit_or_none (bit_and attributes mask)

set-readonly :
    (attributes : ℕ)
    → has (bit_or attributes file_attribute_readonly) file_attribute_readonly ≡ true
set-readonly attributes =
    rw (bit_and_or_distrib attributes 1 1)
      (elim (bit_and_one attributes) [ inl z ↦ rw z refl | inr o ↦ rw o refl ])

-- The read-only bit of the new attributes is the absence of write permission in the mode, and a bit
-- that is set in another attribute stays.
new_attributes_lem :
    (mode attributes mask : ℕ)
    → bit_and not_readonly mask ≡ mask
    → bit_and file_attribute_readonly mask ≡ 0
    → (has (new_attributes mode attributes) file_attribute_readonly ≡ not (has mode s_iwrite_all))
      × (bit_and (new_attributes mode attributes) mask ≡ bit_and attributes mask)
unfolding new_attributes
new_attributes_lem mode attributes mask p q = elim (Bool-cases (has mode s_iwrite_all)) [
  | inl w ↦ rw w (
    rw (bit_and_assoc attributes not_readonly file_attribute_readonly, bit_and_none attributes)
        refl,
    cleared-keeps attributes mask p,
  )
  | inr n ↦ rw n (set-readonly attributes, set-keeps attributes mask q)
]

-- What `fchmod` relies on: handles have attributes, which `GetFileInformationByHandle` reads and
-- `SetFileInformationByHandle` writes when it succeeds. As documented for `FILE_BASIC_INFO`, the
-- value 0 means that the attributes are not to be changed.
pub record Attributes {W : Type 0} (api : Api W) : Type 0 where
  pub attrs : W → ℕ → ℕ
  pub handle_keeps :
      (fd : ℤ) (h : ℕ) (s : Sys W) → attrs (api.get_osfhandle fd s).1.world h ≡ attrs s.world h
  pub info_keeps :
      (g h : ℕ) (s : Sys W) → attrs (api.get_file_information g s).1.world h ≡ attrs s.world h
  pub info_reads :
      (h : ℕ) (s : Sys W) (hfi : FileInfo)
      → (api.get_file_information h s).0 ≡ some hfi
      → hfi.attributes ≡ attrs s.world h
  pub set_writes :
      (h a : ℕ) (s : Sys W)
      → attrs (api.set_file_attributes h a s).1.world h ≡ (
          if (api.set_file_attributes h a s).0
          then (if a == 0 then attrs s.world h else a)
          else attrs s.world h)

-- `new` is `old` with the read-only bit by the mode, and the same bits of directories and links; it is
-- `old` itself when no bit would be left.
pub Chmoded : (mode old new : ℕ) → Type 0
Chmoded mode old new =
    ((new_attributes mode old ≡ 0) × (new ≡ old))
    ⊎ ((has new file_attribute_readonly ≡ not (has mode s_iwrite_all))
        × (bit_and new file_attribute_directory ≡ bit_and old file_attribute_directory)
        × (bit_and new file_attribute_reparse_point ≡ bit_and old file_attribute_reparse_point))

new_attributes-Chmoded : (mode old : ℕ) → Chmoded mode old (new_attributes mode old)
unfolding Chmoded
new_attributes-Chmoded mode old =
    let dir = new_attributes_lem mode old file_attribute_directory refl refl in
    let link = new_attributes_lem mode old file_attribute_reparse_point refl refl in
    inr (dir.0, dir.1, link.1)

none_left-Chmoded : (mode old : ℕ) → new_attributes mode old ≡ 0 → Chmoded mode old old
unfolding Chmoded
none_left-Chmoded mode old e = inl (e, refl)

-- -1 with the attributes as they were, or 0 with the new ones.
pub Outcome : (mode old new : ℕ) → ℤ → Type 0
Outcome mode old new r = ((r ≡ minus_one) × (new ≡ old)) ⊎ ((r ≡ pos 0) × Chmoded mode old new)

module _ {W : Type 0} {api : Api W} (a : Attributes api) where
  set_attributes-Chmoded :
      (h mode old : ℕ) (s : Sys W)
      → a.attrs s.world h ≡ old
      → (api.set_file_attributes h (new_attributes mode old) s).0 ≡ true
      → Chmoded mode old (a.attrs (api.set_file_attributes h (new_attributes mode old) s).1.world h)
  set_attributes-Chmoded h mode old s e done =
      let new = new_attributes mode old in
      let written = rw done at (a.set_writes h new s) in
      elim (Bool-cases (new == 0)) [
        | inl z ↦
            subst (Chmoded mode old) (sym ((rw z at written) ∙ e))
              (none_left-Chmoded mode old ((==_iff new 0).0 z))
        | inr n ↦ subst (Chmoded mode old) (sym (rw n at written)) (new_attributes-Chmoded mode old)
      ]

  failed-Outcome :
      (h mode old winerr : ℕ) (s : Sys W)
      → a.attrs s.world h ≡ old
      → Outcome mode old (a.attrs (set_errno_via_winerr winerr s).world h) minus_one
  unfolding Outcome
  failed-Outcome h mode old winerr s e =
      inl (refl, ap (λ w. a.attrs w h) (set_errno_via_winerr_lem winerr s).4 ∙ e)

  apply_attributes-Outcome :
      (h mode old : ℕ) (p : Proc W)
      → a.attrs p.sys.world h ≡ old
      → Ensures
          (λ r q. Outcome mode old (a.attrs q.sys.world h) r)
          (apply_attributes api h old (new_attributes mode old) p)
  unfolding apply_attributes Outcome steps
  apply_attributes-Outcome h mode old p e =
      let new = new_attributes mode old in
      elim (Bool-cases (new == old)) [
        | inl same ↦ rw same (
            inr (
              refl,
              subst (Chmoded mode old) ((==_iff new old).0 same ∙ sym e)
                  (new_attributes-Chmoded mode old),
            ))
        | inr differs ↦ elim (Bool-cases (api.set_file_attributes h new p.sys).0) [
          | inl done ↦
              rw (differs, done) (inr (refl, set_attributes-Chmoded h mode old p.sys e done))
          | inr failed ↦
              rw (differs, failed)
                (failed-Outcome h mode old _ _ ((rw failed at (a.set_writes h new p.sys)) ∙ e))
        ]
      ]

  -- For a descriptor that stands for the handle `h`, `fchmod` returns -1 and leaves the attributes
  -- of `h` as they were, or returns 0. In that case the read-only attribute is the absence of write
  -- permission for everybody in the mode, and the attributes of directories and links are as they
  -- were; but when no attribute at all would be left, they are all as they were.
  pub fchmod-Outcome :
      (fd : ℤ) (mode h : ℕ) (p : Proc W)
      → (api.get_osfhandle fd p.sys).0 ≡ some h
      → Ensures
          (λ r q. Outcome mode (a.attrs p.sys.world h) (a.attrs q.sys.world h) r)
          (fchmod api fd mode p)
  unfolding fchmod steps
  fchmod-Outcome fd mode h p e =
      let s = (api.get_osfhandle fd p.sys).1 in
      let t = (api.get_file_information h s).1 in
      let kept : a.attrs t.world h ≡ a.attrs p.sys.world h =
        a.info_keeps h h s ∙ a.handle_keeps fd h p.sys in
      elim (Option-cases (api.get_file_information h s).0) [
        | inl unread ↦ rw (e, unread) (failed-Outcome h mode (a.attrs p.sys.world h) _ t kept)
        | inr (hfi, read) ↦
            let same : a.attrs t.world h ≡ hfi.attributes =
              a.info_keeps h h s ∙ sym (a.info_reads h s hfi read) in
            rw (e, read)
              (subst
                (λ o.
                  Ensures (λ r q. Outcome mode o (a.attrs q.sys.world h) r)
                    (apply_attributes api h hfi.attributes (new_attributes mode hfi.attributes)
                      (record p { sys = t })))
                (sym same ∙ kept)
                (apply_attributes-Outcome h mode hfi.attributes (record p { sys = t }) same))
      ]
