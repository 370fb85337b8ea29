-- ===== src/Lib.antt =====
-- The C compatibility layer of magiskboot_build (src/libc-compat), which lets magiskboot, an
-- Android boot image tool written for Linux, run on Windows (winsup, libbsd) and in Emscripten
-- (emsup). Paths in the comments are below src/libc-compat, unless they begin with src/.
--
-- The parts and their models:
-- - emsup/mmap_hack.c keeps a list of the shared writable mappings and puts off the close of a
--   file until its last mapping goes. Mmap/Defs has `MapEntry` (struct map_entry), `State` (the
--   list `maps`), `mmap_stub`, `wrap_close`, `wrap_fclose`, `post_munmap_hook` and `munmap_stub`;
--   Mmap/Entries and Mmap/Counts have the lemmas, Mmap/Safety, Trace, Delay, Drain and Deferred
--   the properties of the list, and Mmap/Refine what it is for, without the list: the regions that a
--   program has mapped, the closes that wait for them, and the closes that are made.
-- - winsup/internal/errno.c and winerr_map.h turn a Win32 error into a value of errno. WinErr/Map
--   is the table, one definition for each stretch of 150 entries, written as runs of equal entries;
--   WinErr/Defs has `set_errno_via_winerr`.
-- - libbsd/str.c is Strlcpy, and winsup/str.c (memmem) is Memmem.
-- - winsup/internal/fd.c: Fd/Open (paths of descriptors, opening of directories and links),
--   Fd/Cache (which descriptors were opened with O_APPEND) and At/Path (`__is_dirfd` and
--   `__get_path_at`).
-- - winsup/link.c is Link/Make and Link/Read; winsup/stat.c is Stat/Exec (names of programs) and
--   Stat/Defs; winsup/open.c is Open, winsup/file.c (fopen and its modes) is Fmode, winsup/mkdir.c
--   is Mkdir, winsup/uio.c is Uio, and winsup/at.c is At/Defs, whose functions resolve a path by
--   At/Path and call those of the other files.
-- - winsup/dirent.c is Dirent: Dirent/Open (opendir, fdopendir, closedir, dirfd), Dirent/Read
--   (readdir) and Dirent/Seek (rewinddir, telldir, seekdir), over the streams of the C runtime,
--   which are the fields of `DirApi`. winsup/acl.c (fchmod, chown) is Acl, and winsup/mknod_stub.c
--   and the device numbers of include/winsup/mknod_compat.h are Mknod.
-- - non-linux/sendfile_fallback.c is Sendfile.
-- - Errno, Sys and Win are shared: the values of errno, the system with a world of its own, the
--   functions of the C runtime and of Win32 as the fields of a record (`Posix`, `Api`), and the
--   state of winsup with the commands that the C functions are written in.
--
-- How the code is read: a C function is a command on its component's state, which returns a result
-- or aborts. `abort` stands for a failed assert, abort() and a use of a null pointer. The argument
-- `ndebug` says whether the build defines NDEBUG, with which an asserted expression is not
-- evaluated. A result -1 or NULL with data behind a pointer is an `Option`. A string is the list of
-- its bytes, and a block of malloc is counted in `live`. Log lines and perror of debug builds are
-- left out. Integers are natural numbers or integers without a width, where the code does not
-- compute with a value near the limits of its type; the haystack and the needle of memmem have
-- fewer than 2^31 bytes, as their parameters of type int say. In Sendfile `size_t` and `off_t` are
-- the number of their 64 bits, in Mknod an `int` is that of its 32, and `d_namlen` of Dirent has 16.
-- In Sendfile a `write` that takes bytes from behind the buffer is a call of its own, which may fail
-- or not, and a `read` of more bytes than the buffer has ends a run as a failed assert does. The
-- result of GetFinalPathNameByHandle and what the buffer holds then are two values, since any result
-- but 0 is taken for success.
--
-- Fuel: the search of memmem gets one round more than the haystack has bytes, and the search of
-- the cache one round more than `fd_cache_max_size`; each of their rounds moves on by one. A round
-- of the loop of uio.c moves a byte, goes on to the next entry, or repeats an interrupted call, so
-- one round for each byte, one for each entry and one more are enough when no call is interrupted.
-- Sendfile gets one round more than there are bytes to copy, since each round that goes on copies
-- one at least when no call fails. The other loops are recursion on a list.
--
-- Not modelled: winsup/io.c, crt_flags.c, internal/assert.c and common/__errno.c, which only call
-- the C runtime; the Rust bindings (src/libc-compat/rs and src/winsup-rs), the CMake files, the
-- scripts and the patches.
pub mod Prelude
pub mod Dirent
pub mod Errno
pub mod Sys
pub mod Mmap
pub mod WinErr
pub mod Strlcpy
pub mod Memmem
pub mod Uio
pub mod Win
pub mod Fd
pub mod Link
pub mod Sendfile
pub mod Stat
pub mod Open
pub mod Fmode
pub mod Mkdir
pub mod Mknod
pub mod Acl
pub mod At
