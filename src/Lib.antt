-- ===== src/Lib.antt =====
-- Verification library of an xv6 kernel for RISC-V, in kernel/ and user/.
--
-- The program is a Unix-like kernel: processes, a file system with a write-ahead log over a buffer
-- cache, pipes, a console, paged memory, and the user programs that run on it. These parts stand here:
--
--   Log       kernel/log.c, with bwrite, bpin and bunpin of kernel/bio.c: the log of the file system.
--             `Log` is `struct log` with the disk, the cached blocks, their counts of pins, and every
--             disk that a crash could have left behind. Log/Ops has begin_op, end_op and log_write,
--             Log/Spec what a disk with its header stands for, Log/Recover and Log/Commit crashes, and
--             Log/Reserve all interleavings of calls.
--   Pipe      kernel/pipe.c: `struct pipe` and the passes of pipewrite and piperead between sleeps.
--             Pipe/Ring shows the ring as a queue, and Pipe/Fifo runs readers and writers together.
--   Console   kernel/console.c: the ring of typed characters with its three indices. Console/Line shows
--             it as a line of which a part is ready, Console/Intr has the interrupt handler that edits
--             the line, Console/Read the readers, by passes between sleeps.
--   Spinlock  kernel/spinlock.c: acquire and release in the steps that other CPUs can come between.
--             Spinlock/Nesting has push_off and pop_off, Spinlock/Exclusion all interleavings of CPUs.
--   File      kernel/file.c: the table of open files. File/Counts has the operations, File/References
--             those who hold references to files.
--   Vm        kernel/vm.c: page tables as words of memory, walk, walkaddr, mappages, uvmcreate
--             and uvmclear (the last two in Vm/Space). Vm/Tree has the
--             tree that the tables form, Vm/Grow and Vm/Walk a walk that adds tables, Vm/Leaf an entry
--             that is written, Vm/Map and Vm/Mappages a range, Vm/Address walkaddr.
--   Fs        kernel/fs.c: the free map (Fs/Bits, Fs/Scan, Fs/Alloc) and, in Fs/Inode, the contents of
--             inodes. Fs/Owner says which blocks are an inode's, Fs/Claim, Fs/Slots and Fs/Bmap give it
--             more, Fs/Read and Fs/Write with Fs/Change are readi and writei, Fs/Freed, Fs/Trunc and
--             Fs/Itrunc itrunc, Fs/Dinode an inode on the disk. Fs/Table is the table of inodes, with
--             dirlookup and namex; Fs/Table/Refs has the operations on references and locks,
--             Fs/Table/Lookup dirlookup, Fs/Table/Walk the walk along paths, Fs/Table/Link ialloc and dirlink.
--   Path      kernel/fs.c: skipelem, the next element of a path.
--   Bio       kernel/bio.c: the buffer cache, its list in order of use, the locks of its buffers and the
--             disk. Bio/Find has the searches, Bio/Current what a reader of a block is to see,
--             Bio/Recycle and Bio/Read bget and bread, Bio/Release bwrite and brelse.
--   Proc      kernel/proc.c: the table of processes. Proc/Table has its loops, Proc/Reparent wakeup and
--             reparent, Proc/Family the invariant, Proc/Fork, Proc/Exit, Proc/Wait and Proc/Kill the
--             calls, and Proc/Reach every system that can come about.
--   Kalloc    kernel/kalloc.c: the free list that runs through the free pages themselves. Kalloc/Free
--             has the two operations, Kalloc/Client those who hold pages.
--   KString   kernel/string.c: memory and strings, over memory as a function from addresses.
--   Printint  printint and printptr of kernel/printf.c, as the list of characters they put out.
--   Ulib      user/ulib.c: the C library of the user programs, over the same memory.
--   Grep      match, matchhere and matchstar of user/grep.c, over strings as lists of characters.
--   Prelude   what they share: lists by native numbers, Boolean tests, C integers, updates of functions.
--
-- The log stores blocks through the buffer cache, pages come from Kalloc, and Ulib and Printint meet in
-- numbers: what the kernel prints, atoi reads.
--
-- Integers: a 32-bit counter or `int` that can come to its end keeps its wrap-around, written with
-- `% 2 ^ 32`. Counts of references, of nested push_off and of calls in the log, and the block
-- numbers of balloc, stay below 2 ^ 31 and are numbers without a bound. A `char` is a number below
-- 256. Addresses do not wrap: no object crosses the end of memory.
-- Loops are recursive on the rounds that are left, where the code counts them: a list of logged
-- blocks, `n - i` bytes. A loop that runs to the end of a string takes fuel, and its theorem shows
-- that one more round than the string is long is enough; `digit_loop` has the 16 places of its
-- buffer as fuel. A walk along a path has one more round than the path has bytes, a search of a
-- directory two more than the directory has entries. The loop of control-U has fuel, and more than
-- the size of the ring is enough. An answer of none is a panic for `kfree`, `filedup`, `fileclose`,
-- the locks and the functions of Fs, the null pointer for `filealloc`, a sleeping caller for
-- `begin_op`, and a loop out of fuel elsewhere; the loops of Fs have a round for each byte, and
-- their theorems show that none is then a full disk.
-- Locks make each stretch of code between acquire and the next release or sleep one step. The disk
-- writes whole blocks, in the order of the calls. In Pipe, copyin, copyout and the killed flag are
-- parameters; in Proc, so is what the functions ask of kalloc, page tables and copyout, and the
-- calls of the file layer are listed. Pids stay below 2 ^ 31 - 1, since nextpid would wrap there.
--
-- Not modelled: stati and fsinit of kernel/fs.c, fileread and filewrite, the operations of vm.c but
-- for those named above, growproc, the rest of the sleep locks, the serial port, and the user programs but for
-- grep's matcher. Machine registers, devices and assembly (kernel/start.c, kernel/trap.c,
-- kernel/plic.c, the .S files) are the hardware's.
pub mod Prelude
pub mod KString
pub mod Log
pub mod Pipe
pub mod Grep
pub mod Printint
pub mod Ulib
pub mod Kalloc
pub mod Console
pub mod Spinlock
pub mod File
pub mod Bio
pub mod Proc
pub mod Vm
pub mod Path
pub mod Fs
