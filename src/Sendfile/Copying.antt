-- ===== src/Sendfile/Copying.antt =====
-- What it means to copy, for `__sendfile_stub` of non-linux/sendfile_fallback.c.
use magiskboot_build.Prelude.{
  ℕ, ◌-◌, ◌≤◌, min, pos, List, ◌++◌, take, drop, length, ◌≡◌, refl, sym, ap, ◌∙◌,
}
use mathlib.Core.List.{append_assoc, append-nil}
use magiskboot_build.Prelude.Cuts.{length-zero, take_nil, drop_nil, take-append-drop, drop-drop}
use magiskboot_build.Sys.{Sys}
use magiskboot_build.Sendfile.{Files, Run}

-- Calls that do all their work: `read` stores what is left of the input, at least one byte and no
-- more than it is asked for, until the end of the input, and `write` adds all its bytes to the
-- output.
pub record Copying {W : Type 0} (files : Files W) : Type 0 where
  pub input : W → List ℕ
  pub output : W → List ℕ
  pub reads : (count : ℕ) → Sys W → ℕ
  pub read_data :
      (count : ℕ) (s : Sys W)
      → (files.read count s).0 ≡ (pos (reads count s), take (reads count s) (input s.world))
  pub reads_at_most : (count : ℕ) (s : Sys W) → reads count s ≤ min count (length (input s.world))
  pub reads_some :
      (count : ℕ) (s : Sys W) → min (min count (length (input s.world))) 1 ≤ reads count s
  pub read_input :
      (count : ℕ) (s : Sys W)
      → input (files.read count s).1.world ≡ drop (reads count s) (input s.world)
  pub read_output : (count : ℕ) (s : Sys W) → output (files.read count s).1.world ≡ output s.world
  pub write_all : (bytes : List ℕ) (s : Sys W) → (files.write bytes s).0 ≡ pos (length bytes)
  pub write_input :
      (bytes : List ℕ) (s : Sys W) → input (files.write bytes s).1.world ≡ input s.world
  pub write_output :
      (bytes : List ℕ) (s : Sys W) → output (files.write bytes s).1.world ≡ output s.world ++ bytes

-- What holds of the end of a run, which ends with a result.
abbrev pub Ended : {W A : Type 0} → (A → Sys W → Type 0) → Run W A → Type 0
Ended P (Run.ended a s) = P a s
Ended P Run.stuck = ⊥
Ended P Run.unfinished = ⊥

pub Ended-mono :
    {W A : Type 0} (P Q : A → Sys W → Type 0) (r : Run W A)
    → Ended P r
    → ((a : A) (s : Sys W) → P a s → Q a s)
    → Ended Q r
Ended-mono P Q (Run.ended a s) h k = k a s h
Ended-mono P Q Run.stuck h k = absurd h
Ended-mono P Q Run.unfinished h k = absurd h

module _ {W : Type 0} {files : Files W} (c : Copying files) where
  -- The whole copy of `n` bytes, or of all of the input if that is shorter.
  pub Copied : (n : ℕ) (before after : W) → Type 0
  Copied n before after =
      (c.output after ≡ c.output before ++ take n (c.input before))
      × (c.input after ≡ drop n (c.input before))

  pub none_left-Copied :
      (m : ℕ) (s t : W)
      → length (c.input s) ≡ 0
      → c.output t ≡ c.output s
      → c.input t ≡ drop 0 (c.input s)
      → Copied m s t
  unfolding Copied
  none_left-Copied m s t empty out inp =
      let nothing = length-zero (c.input s) empty in
      (
        rw (nothing, take_nil m) (out ∙ sym (append-nil (c.output s))),
        rw (nothing, drop_nil m) (inp ∙ nothing),
      )

  pub step-Copied :
      (n m : ℕ) (s t u v : W)
      → n ≤ m
      → c.input t ≡ drop n (c.input s)
      → c.output t ≡ c.output s
      → c.input u ≡ c.input t
      → c.output u ≡ c.output t ++ take n (c.input s)
      → Copied (m - n) u v
      → Copied m s v
  unfolding Copied
  step-Copied n m s t u v le ti to ui uo (vo, vi) =
      let inp : c.input u ≡ drop n (c.input s) = ui ∙ ti in
      let out : c.output u ≡ c.output s ++ take n (c.input s) =
        uo ∙ ap (λ (l : List ℕ). l ++ take n (c.input s)) to in
      (
        rw (inp, out) at vo
            ∙ append_assoc (c.output s) (take n (c.input s)) (take (m - n) (drop n (c.input s)))
            ∙ ap (λ (l : List ℕ). c.output s ++ l) (take-append-drop n m (c.input s) le),
        rw inp at vi ∙ drop-drop n m (c.input s) le,
      )

  pub zero-Copied : (w : W) → Copied 0 w w
  unfolding Copied
  zero-Copied w = (sym (append-nil (c.output w)), refl)
