-- ===== src/Lib.antt =====
-- Thunix, a 32-bit operating system in C: a model of its core and proofs of what it does.
--
-- The program's parts, and the files that model them. Each C function has a definition of its name.
--
-- - Base: names shared by all files; integers (Base/Int), and memory as a byte for each address
--   (Base/Bytes). Addresses are numbers without a bound: objects do not wrap round the end of the
--   address space.
-- - Bitopts: lib/bitopts.c. `find_first_zero` runs on `end - buf + 1` rounds, since each round
--   moves its pointer on.
-- - Strings: lib/string.c. A loop that runs to the NUL of a string takes its rounds as an argument,
--   and the theorems say how many are enough.
-- - Cache: fs/cache.c. An entry is named by its index, `cache_head` by 64, and the links of all
--   entries are functions. Cache/Spec is the list that the ring stands for. The read of a block is
--   an argument: whether it fails, and what it leaves in the buffer.
-- - Tfs: fs/tfs/tfs_diskio.c and fs/tfs/super.c, over a floppy drive that is a parameter, since
--   kernel/fd.c works through I/O ports, interrupts and DMA. Tfs/Alloc: fs/tfs/balloc.c and
--   fs/tfs/ialloc.c. They call the bit operations on the buffer of a cached block, and write that
--   block through to the drive. Tfs/Inodes: fs/tfs/inode.c, inodes in the table on the disk.
--   Tfs/Files: fs/tfs/file.c; Tfs/Files/Backed is the interface between the files and the cache:
--   the states in which each block can be had with what the disk holds in it, and the coherent
--   cache as an instance of it. Tfs/Dirs: fs/tfs/dir.c, the search for an entry, which tfs_add_entry,
--   tfs_mkdir, tfs_rmdir, tfs_unlink and tfs_readdir stand on, with `tfs_iget`, `tfs_new_inode`,
--   `tfs_mknod` and `tfs_release_inode` of fs/tfs/inode.c; the loops run on more rounds than the
--   directory has entries.
-- - Paths: fs/namei.c. An inode's operations are a record over a state, which Paths/OnTfs fills with
--   those of TFS; Paths/Loop and Paths/Lookup have the search of a path's names one after the other. The
--   loops run on more rounds than the path has bytes and parts. Paths/BaseNames: fs/fslib.c.
--   Paths/Calls: the system calls that make and remove names, with `sys_mknod` of fs/inode.c.
--   Paths/Cwd: `sys_chdir` and `sys_getcwd`.
-- - Console: kernel/console.c. The statics that `con_init` sets for good are constants; the inline
--   assembly of the scrolling is modelled with its direction flag.
-- - Heap: mm/malloc.c. The fields of a header are functions of its address. Heap/Regions is the list of
--   regions that a well-formed heap consists of; the search of `malloc` runs on more rounds than there
--   are regions.
-- - Descriptors: fs/file.c, the table of file descriptors. What `namei` found is an argument of
--   `sys_open`. Descriptors/Io: `sys_read` and `sys_write` over the operations of Tfs/Files.
-- - Keyboard: kernel/kb.c. The scancodes that the port gives are arguments, as is what lies behind
--   the array of key maps.
-- - Shell: kernel/shell.c, the typing of a line, its cut into words and its numbers. What `run_command`
--   is called with is a result, and so is a byte written behind the 512 of the line.
-- - Timer: kernel/timer.c. The functions called at a tick are a result. The loop of `add_timer` runs on
--   one round, since no timer has a next one, and that of `do_timer` on one more than there are timers.
-- - Fd: kernel/fd.c, where a sector lies on the disk.
-- - Mktime: kernel/mktime.c.
-- - Page: mm/mm.c, the map of physical pages; Page/Tables and Page/Shared: the page directory and its
--   tables, in a memory of 32-bit words. A `panic` ends the kernel, and is a result of its own.
--
-- Numbers are natural numbers with the wrap-around of a machine word written out; an `int` that can
-- be negative is an integer, or its 32-bit word where the definition says so.
--
-- Not modelled: assembly, descriptor tables and traps, device registers and interrupts, what is
-- printed, the file system fs/ext2 that is no longer started, lib/vsprintf.c, a copy of the Linux
-- kernel's, and the commands of the shell.
pub mod Base
pub mod Bitopts
pub mod Cache
pub mod Console
pub mod Descriptors
pub mod Fd
pub mod Heap
pub mod Keyboard
pub mod Mktime
pub mod Page
pub mod Paths
pub mod Shell
pub mod Strings
pub mod Tfs
pub mod Timer
