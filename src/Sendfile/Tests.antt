-- ===== src/Sendfile/Tests.antt =====
-- Files in memory: the world is the rest of the input and the output.
use magiskboot_build.Prelude.{
  ℕ, suc, ◌-◌, min, pos, minus_one, false, List, [], ◌∷◌, ◌++◌, take, drop, replicate, length, ◌≡◌,
  refl, arith,
}
use magiskboot_build.Errno.{no_error}
use magiskboot_build.Sys.{Sys}
use magiskboot_build.Sendfile.{
  Files, Run, chunk, and_then, assert_some, write_rest, write_buffer, write_chunk, sendfile_loop,
  sendfile_stub,
}
use magiskboot_build.Sendfile.Copying.{Copying, Copied, Ended}
use magiskboot_build.Sendfile.Laws.{sendfile_stub-Copied}

abbrev Memory : Type 0
Memory = List ℕ × List ℕ

abbrev memory : Files Memory
memory = record {
  read = λ count s.
      let n = min count (length s.world.0) in
      ((pos n, take n s.world.0), record s { world = (drop n s.world.0, s.world.1) });
  write = λ bytes s. (pos (length bytes), record s { world = (s.world.0, s.world.1 ++ bytes) });
  write_behind = λ offset count s. (minus_one, s);
}

memory-Copying : Copying memory
memory-Copying = record {
  input = λ w. w.0;
  output = λ w. w.1;
  reads = λ count s. min count (length s.world.0);
  read_data = λ count s. refl;
  reads_at_most = λ count s. omega arith;
  reads_some = λ count s. omega arith;
  read_input = λ count s. refl;
  read_output = λ count s. refl;
  write_all = λ bytes s. refl;
  write_input = λ bytes s. refl;
  write_output = λ bytes s. refl;
}

abbrev three_bytes : Sys Memory
three_bytes = record { errno = no_error; last_error = 0; world = (1 ∷ 2 ∷ 3 ∷ [], []) }

sendfile_stub-Copied_example :
    Ended
      (λ _ t. Copied memory-Copying 2 three_bytes.world t.world)
      (sendfile_stub memory false 3 2 three_bytes)
sendfile_stub-Copied_example = sendfile_stub-Copied memory-Copying false 2 three_bytes (omega arith)

two_copied :
    sendfile_stub memory false 3 2 three_bytes
    ≡ Run.ended tt (record three_bytes { world = (3 ∷ [], 1 ∷ 2 ∷ []) })
unfolding sendfile_stub sendfile_loop chunk and_then write_chunk assert_some write_rest write_buffer
two_copied = refl

-- An input without end, and a full disk.
abbrev full : Files Memory
full = record {
  read = λ count s. ((pos (suc (count - 1)), replicate (suc (count - 1)) 0), s);
  write = λ bytes s. (minus_one, s);
  write_behind = λ offset count s. (minus_one, s);
}
