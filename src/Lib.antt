-- ===== src/Lib.antt =====
-- The core of the Stanix kernel, modelled and proved.
--
-- Data moves through a byte ring: pipes and terminals write to it and read from it, and tasks that
-- find it full or empty sleep on wait queues. Locks use the same queues. Drivers get their ports,
-- interrupts and memory from the resource manager; the interval tree and the segments of an address space
-- rest on the AVL tree; the kernel's blocks come from its heap, and pages from the buddy allocator; the
-- sparse array keeps cached pages, inodes, devices and descriptors by their numbers; dates and encodings
-- are pure functions that file systems use.
--
-- Files:
--   Ringbuf   kernel/klib/ringbuf.c, kernel/include/klib/ringbuf.h: `ringbuffer_init`, `ringbuffer_read`
--             and `ringbuffer_write` are init, read and write on the record Ring.
--   Sleep     kernel/task/sleep.c: wait queues, the sorted list of sleeping tasks, deadlines.
--   Pipe      kernel/fs/pipe.c: both ends of a pipe. A wait (kernel/include/task/sleep.h) is an argument
--             that gives the pipe as the waiter finds it, or nothing for a signal.
--   Tty       kernel/drivers/tty.c: output, echo, line editing and input of the line discipline.
--   Lock      kernel/task/rwsem.c and mutex.c: each call between two sleeps is a step.
--   Rman      kernel/drivers/resource.c: the segments of a resource manager as a list; a place in the
--             linked list is the segments in front, nearest first, and those behind.
--   Avl       kernel/klib/avltree.c: the tree as a value, undefined behaviour as `none`.
--   Interval  kernel/klib/intervaltree.c: its callbacks and its use of Avl.
--   Fat       modules/fs/fat/fat.c: the allocation table of a FAT volume on a device of bytes, chains of
--             clusters; Table and Mirror are about its bytes, View gives the map from cluster to cluster.
--             Fat/Mount is `fat_mount`, which makes the superblock of a boot sector.
--   Pmm       kernel/mem/pmm.c: the buddy allocator of one zone; a page is its number, and the lists of
--             free blocks are lists of pages.
--   Kheap     kernel/mem/kheap.c: the segments of the heap as a list, each with its address; `kmalloc_flags`,
--             `kfree` and `krealloc_flags` are kmalloc, kfree and krealloc (Kheap/Realloc).
--   Vmm       kernel/mem/vmm.c: the segments of an address space as a list in order; Vmm/View gives what is
--             mapped at each address, Vmm/Fault the prediction of `vmm_handle_fault`.
--   Xarray    kernel/klib/xarray.c: the radix tree as a value, the entries and the mask of a node as
--             functions; Xarray/Seek has the search and the allocation of an index.
--   Signal    kernel/task/signal.c: pending signals; a set of signals is a predicate on numbers.
--   Time      kernel/klib/time.c: seconds and dates.
--   Unicode   kernel/klib/unicode.c: UTF-8 and UTF-16.
--   Base, Word, Errno   shared names, lists, 64-bit arithmetic, error numbers.
--
-- Conventions: sizes are natural numbers and wrap modulo 2 ^ 64 where the code adds or subtracts them.
-- An error is a value (Ret, Result). Spinlocks and mutexes make a call one step. Copies between the
-- kernel and user memory fail where an argument says so, and so do allocations.
--
-- Fuel: `pipe_raw_write` runs on fuel, and as many rounds as bytes, and one, are enough from memory
-- that can be read. `pmm_set_free_pages_range` gets a round for each page, which is enough. The loops
-- of `time2date` get a round for each day, and twelve for the months. A sparse array
-- grows in 11 rounds, enough for the 66 bits of 11 levels, and makes new nodes in as many rounds as the
-- shift says, of which each takes 6. All other loops are recursions on lists, trees or their own
-- counters.
--
-- Not modelled: virtual file system and page cache, slabs, scheduler, sockets,
-- drivers, architecture code, system calls, user libraries and programs. Within the modelled files:
-- the reading side, sessions and ioctl of terminals, parent pointers and `avltree_next`, the lists of
-- resources on the buses, the file descriptors of pipes, the directories and the page cache of FAT,
-- page tables, the mapping of new segments and unmapping (it takes segments out by `avltree_remove`, whose
-- rebalancing is wrong, see Avl/Defects), the zones of memory and its first stage, and signal handlers.
pub mod Base
pub mod Word
pub mod Errno
pub mod Ringbuf
pub mod Sleep
pub mod Pipe
pub mod Tty
pub mod Lock
pub mod Rman
pub mod Avl
pub mod Interval
pub mod Fat
pub mod Pmm
pub mod Kheap
pub mod Vmm
pub mod Xarray
pub mod Signal
pub mod Time
pub mod Unicode
