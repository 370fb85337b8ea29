-- ===== src/Sendfile/Laws.antt =====
-- What `__sendfile_stub` of non-linux/sendfile_fallback.c copies when every call does all its work.
use magiskboot_build.Prelude.{
  ℕ, zero, suc, ◌+◌, ◌-◌, ◌%◌, ◌^◌, ◌≤◌, ◌<◌, ltb, ◌==◌, ==_iff, Bool, true, false, Bool-cases,
  List, take, drop, length, length-take, ◌≡◌, refl, ap, ◌∙◌, inl, inr, arith,
}
use magiskboot_build.Prelude.Cuts.{take-take}
use magiskboot_build.Sys.{Sys}
use magiskboot_build.Sendfile.{
  size_values, sf_buf_size, Files, Run, and_then, chunk, assert_some, write_rest, write_buffer,
  write_chunk, sendfile_loop, sendfile_stub,
}
use magiskboot_build.Sendfile.Copying.{
  Copying, Ended, Ended-mono, Copied, none_left-Copied, step-Copied, zero-Copied,
}

chunk_lem : (n : ℕ) → n < 2 ^ 63 → (chunk n ≤ sf_buf_size) × (chunk n ≤ n) × (1 ≤ n → 1 ≤ chunk n)
unfolding chunk
chunk_lem n h = (ground arith, ground arith, λ l. ground arith)

module _ {W : Type 0} {files : Files W} (c : Copying files) where
  write_chunk_lem :
      (ndebug : Bool) (fuel n : ℕ) (bytes : List ℕ) (s : Sys W)
      → length bytes ≡ n
      → 1 ≤ n
      → n ≤ sf_buf_size
      → 1 ≤ fuel
      → write_chunk files ndebug fuel bytes n s ≡ Run.ended n (files.write bytes s).1
  unfolding write_chunk write_rest write_buffer assert_some
  write_chunk_lem ndebug zero n bytes s len low high more = absurd (omega arith)
  write_chunk_lem ndebug (suc fuel) n bytes s len low high more =
      let small : n % size_values ≡ n = omega arith in
      let in_buffer : ltb sf_buf_size n ≡ false = ground arith in
      let done : ltb n n ≡ false = ground arith in
      let some_written : (n == 0) ≡ false = ground arith in
      elim (Bool-cases ndebug) [
        | inl with_it ↦ rw (in_buffer, c.write_all bytes s, len, small, done, with_it) refl
        | inr without ↦
            rw (in_buffer, c.write_all bytes s, len, small, some_written, done, without) refl
      ]

  -- The copies that are left to a loop with less fuel.
  Goes : (ndebug : Bool) (fuel : ℕ) → Type 0
  Goes ndebug fuel =
      (k : ℕ) (u : Sys W)
      → k < fuel
      → k < 2 ^ 63
      → Ended (λ _ t. Copied c k u.world t.world) (sendfile_loop files ndebug fuel k u)

  -- What a round knows of its chunk, of which it reads `n` bytes.
  record Chunk (m n : ℕ) : Type 0 where
    left : (m == 0) ≡ false
    in_buffer : ltb sf_buf_size (chunk m) ≡ false
    fits : n ≤ sf_buf_size
    at_most : n ≤ m
    word : n % size_values ≡ n
    rest : (m + (size_values - n)) % size_values ≡ m - n

  chunk-Chunk : (m : ℕ) (s : Sys W) → 1 ≤ m → m < 2 ^ 63 → Chunk m (c.reads (chunk m) s)
  chunk-Chunk m s low small =
      let fits = chunk_lem m small in
      let most = c.reads_at_most (chunk m) s in
      record {
        left = ground arith;
        in_buffer = ground (arith, fits);
        fits = omega (arith, fits, most);
        at_most = omega (arith, fits, most);
        word = omega (arith, fits, most);
        rest = omega (arith, fits, most, small);
      }

  last-Copied :
      (ndebug : Bool) (fuel m : ℕ) (s : Sys W)
      → 1 ≤ m
      → m < 2 ^ 63
      → (c.reads (chunk m) s == 0) ≡ true
      → Ended (λ _ t. Copied c m s.world t.world) (sendfile_loop files ndebug (suc fuel) m s)
  unfolding sendfile_loop
  last-Copied ndebug fuel m s low small nothing =
      let k = chunk-Chunk m s low small in
      let t = (files.read (chunk m) s).1 in
      rw (k.left, k.in_buffer, c.read_data (chunk m) s, k.word, nothing)
        (none_left-Copied c m s.world t.world
          (ground (arith, chunk_lem m small, c.reads_some (chunk m) s)) (c.read_output (chunk m) s)
          (c.read_input (chunk m) s
            ∙ ap (λ (i : ℕ). drop i (c.input s.world))
                ((==_iff (c.reads (chunk m) s) 0).0 nothing)))

  round-Copied :
      (ndebug : Bool) (fuel m : ℕ) (s : Sys W)
      → 1 ≤ m
      → m < 2 ^ 63
      → m ≤ fuel
      → (c.reads (chunk m) s == 0) ≡ false
      → Goes ndebug fuel
      → Ended (λ _ t. Copied c m s.world t.world) (sendfile_loop files ndebug (suc fuel) m s)
  unfolding sendfile_loop and_then Goes
  round-Copied ndebug fuel m s low small more something goes =
      let k = chunk-Chunk m s low small in
      let n = c.reads (chunk m) s in
      let t = (files.read (chunk m) s).1 in
      let bytes = take n (c.input s.world) in
      let u = (files.write bytes t).1 in
      let given : 1 ≤ n = ground arith in
      let len : length bytes ≡ n =
        omega (arith, length-take n (c.input s.world), c.reads_at_most (chunk m) s) in
      let written = write_chunk_lem ndebug fuel n bytes t len given k.fits (omega arith) in
      rw
        (
          k.left,
          k.in_buffer,
          c.read_data (chunk m) s,
          k.word,
          something,
          take-take n (c.input s.world),
          written,
          k.rest,
        )
        (Ended-mono (λ _ v. Copied c (m - n) u.world v.world) (λ _ v. Copied c m s.world v.world)
          (sendfile_loop files ndebug fuel (m - n) u)
          (goes (m - n) u (omega (arith, given)) (omega (arith, small)))
          λ _ v.
            step-Copied c n m s.world t.world u.world v.world k.at_most (c.read_input (chunk m) s)
              (c.read_output (chunk m) s) (c.write_input bytes t) (c.write_output bytes t))

  loop-Copied : (ndebug : Bool) (fuel : ℕ) → Goes ndebug fuel
  unfolding Goes sendfile_loop
  loop-Copied ndebug zero n_left s more small = absurd (omega arith)
  loop-Copied ndebug (suc fuel) zero s more small = zero-Copied c s.world
  loop-Copied ndebug (suc fuel) (suc k) s more small =
      elim (Bool-cases (c.reads (chunk (suc k)) s == 0)) [
        | inl nothing ↦ last-Copied ndebug fuel (suc k) s (omega arith) small nothing
        | inr something ↦
            round-Copied ndebug fuel (suc k) s (omega arith) small (omega arith) something
              (λ j u. loop-Copied ndebug fuel j u)
      ]

  -- When `read` delivers what is left of the input and `write` takes all that it is given, `sendfile`
  -- for fewer than 2^63 bytes returns, with one round for each byte and one more at most, whether
  -- assertions are evaluated or not: the output has got the next `count` bytes of the input, or all
  -- of them if there are fewer, and the input goes on behind them.
  pub sendfile_stub-Copied :
      (ndebug : Bool) (count : ℕ) (s : Sys W)
      → count < 2 ^ 63
      → Ended
          (λ _ t. Copied c count s.world t.world)
          (sendfile_stub files ndebug (suc count) count s)
  unfolding sendfile_stub Goes
  sendfile_stub-Copied ndebug count s small =
      let word : count % size_values ≡ count = omega (arith, small) in
      rw word (loop-Copied ndebug (suc count) count s (omega arith) small)
