-- ===== src/Uio/Tests.antt =====
-- winsup/uio.c on a system that moves one byte of every two that are asked for and counts them.
use magiskboot_build.Prelude.{
  ℕ, ◌+◌, ◌/◌, ℤ, pos, true, ◌≡◌, refl, some, is_some, List, [], ◌∷◌, arith,
}
use magiskboot_build.Errno.{eintr}
use magiskboot_build.Sys.{Sys}
use magiskboot_build.Uio.{Io, uio_loop, uio_impl, readv, writev}
use magiskboot_build.Uio.Laws.{Counted, Ends, uio-Result, uio-returns}
use magiskboot_build.Uio.Full.{result, uio-Full}

abbrev half : (entry off count : ℕ) → Sys ℕ → ℤ × Sys ℕ
half entry off count s = (pos ((count + 1) / 2), record s { world = s.world + (count + 1) / 2 })

abbrev slow : Io ℕ
slow = record { read = half; write = half }

half-Counted : Counted (λ n. n) half
half-Counted = record { counts = λ i off n s. refl; at_most = λ i off n s. omega arith }

abbrev vector : List ℕ
vector = 3 ∷ 4 ∷ []

abbrev start : Sys ℕ
start = record { errno = eintr; last_error = 0; world = 0 }

all_moved : writev slow 9 vector start ≡ some (pos 7, record start { world = 7 })
unfolding writev uio_impl uio_loop
all_moved = refl

uio-Result_example :
    Ends (λ n. n) 0 7 (readv slow 9 vector start) × Ends (λ n. n) 0 7 (writev slow 9 vector start)
uio-Result_example = uio-Result (λ n. n) slow vector start half-Counted half-Counted 9

uio-returns_example :
    (is_some (readv slow 10 vector start) ≡ true) × (is_some (writev slow 10 vector start) ≡ true)
uio-returns_example =
    uio-returns (λ n. n) slow vector start half-Counted half-Counted (λ i off n t e. cc)
      (λ i off n t e. cc)

-- A system that moves all, and a vector with an empty entry.
abbrev all : (entry off count : ℕ) → Sys ℕ → ℤ × Sys ℕ
all entry off count s = (pos count, record s { world = s.world + count })

abbrev fast : Io ℕ
fast = record { read = all; write = all }

uio-Full_example :
    (result (readv fast 4 (3 ∷ 0 ∷ 4 ∷ []) start) ≡ some (pos 3))
    × (result (writev fast 4 (3 ∷ 0 ∷ 4 ∷ []) start) ≡ some (pos 3))
uio-Full_example = uio-Full fast (3 ∷ 0 ∷ 4 ∷ []) start (λ i off n s. refl) (λ i off n s. refl)
