-- ===== src/WinErr/Runs.antt =====
-- A table as runs of equal entries.
use magiskboot_build.Prelude.{ℕ, List, [], ◌∷◌, ◌++◌, replicate}
use magiskboot_build.Errno.{Errno}

-- How often an entry follows itself, and the entry.
abbrev pub Runs : Type 0
Runs = List (ℕ × Errno)

abbrev pub entries : Runs → List Errno
entries [] = []
entries ((n, e) ∷ r) = replicate n e ++ entries r
