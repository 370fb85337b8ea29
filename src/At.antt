-- ===== src/At.antt =====
-- winsup/at.c: the functions that take a directory descriptor, over those that take a path.
pub mod Path
pub mod Calls
pub mod Defs
pub mod Frees
pub mod Access
mod Tests
