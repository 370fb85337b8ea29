-- ===== src/Stat.antt =====
-- winsup/stat.c: `fstat` and `lstat` over handles.
pub mod Exec
pub mod Defs
