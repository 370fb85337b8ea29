-- ===== src/Win.antt =====
-- What the files of winsup/ share: the C runtime and Win32 functions that they call, and the state
-- that they keep between calls.
pub mod Api
pub mod Flags
pub mod Proc
pub mod Balance
pub mod Example
