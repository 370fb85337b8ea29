-- ===== src/Fd.antt =====
-- winsup/internal/fd.c: the path behind a descriptor, descriptors of directories and symbolic
-- links, and the cache of the flags that descriptors were opened with.
pub mod Open
pub mod Cache
