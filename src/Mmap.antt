-- ===== src/Mmap.antt =====
-- emsup/mmap_hack.c: `close` and `fclose` of a file that has a shared writable mapping are put off
-- until the last such mapping is gone. The list `maps` owns its nodes, so it is a list of values.
pub mod Defs
mod Entries
pub mod Counts
mod Safety
pub mod Trace
pub mod Delay
pub mod Drain
pub mod Deferred
pub mod Refine
mod Tests
