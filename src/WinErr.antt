-- ===== src/WinErr.antt =====
-- winsup/internal/errno.c and winerr_map.h: from a Win32 error to `errno`.
mod Runs
mod Map
pub mod Defs
pub mod Laws
mod Tests
