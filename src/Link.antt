-- ===== src/Link.antt =====
-- winsup/link.c: symbolic and hard links.
pub mod Make
pub mod Read
