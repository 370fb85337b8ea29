-- ===== src/Sendfile/Errors.antt =====
-- What `__sendfile_stub` of non-linux/sendfile_fallback.c does when a call fails.
use magiskboot_build.Sys.{Sys}
use magiskboot_build.Sendfile.{Run}

-- The run does not return.
abbrev pub Unreturned : {W A : Type 0} → Run W A → Type 0
Unreturned (Run.ended a s) = ⊥
Unreturned Run.stuck = Unit
Unreturned Run.unfinished = Unit
