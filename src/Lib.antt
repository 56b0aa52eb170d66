-- ===== src/Lib.antt =====
-- xv6-riscv: a model of the kernel (kernel/*.c) and of parts of the user programs (user/*.c), and theorems about it.
--
-- The kernel's parts call each other: the life cycle of processes allocates pages and page tables,
-- wakes sleepers, and leaves choices to the scheduling policies; all of them exclude each other by
-- spinlocks and use the string functions. The file system's calls are bracketed by the log, which
-- writes their blocks to the disk as one transaction.
--
-- Files, with the code that each models:
--   Common       shared: tests on numbers, lists, functions updated at a point, `int`s as integers,
--                and Outcome, the result of code that may call panic (kernel/printf.c).
--   Str          kernel/string.c. Memory is a function from an address to a byte; `char` and
--                `uchar` are numbers below 256 where the C code makes them so. A pointer
--                is an address, and the functions return the memory.
--   Spinlock     kernel/spinlock.c and the structs of kernel/spinlock.h and kernel/proc.h. Nesting
--                is about push_off and pop_off on one CPU; System is any number of CPUs that go
--                through acquire and release, one access to the shared lock at a time.
--   Riscv        kernel/memlayout.h and the page arithmetic of kernel/riscv.h.
--   Kalloc       kernel/kalloc.c. The free list is threaded through the free pages, in memory
--                addressed by words. Chain says that the list is a list of distinct pages, Laws is about
--                the operations, Boot about kinit, Ownership about any history of calls.
--   Proc         kernel/proc.c and kernel/proc.h. The process table is a function from an index;
--                indices below nproc = 64 are the array.
--     Fair       the scheduling policies: getMinAccumulator, getMinVruntime, defaulScheduler,
--                priorityScheduler, cfsScheduler, update_ticks, set_ps_priority, set_cfs_priority.
--     Wake       sleep, in two parts around the context switch, wakeup, yield, kill, setkilled, killed.
--     Life       allocproc, freeproc, fork, exit, wait, reparent, getProc. Page tables, user memory,
--                open files and inodes are reached through the record Kernel, which holds
--                the functions of kernel/vm.c, kernel/file.c and kernel/fs.c that this code calls; the theorems
--                hold for every such record.
--
--   Log          kernel/log.c. A block is its words; the header block holds the count in word 0 and the
--                block numbers after it. bread is a cache of contents, and bwrite takes one from a
--                number of disk writes, after which the power has failed and the disk no
--                longer changes. Ops has begin_op, end_op and log_write; Header, Writes and
--                Install say what the single loops write, Disk and Recovery what the disk holds
--                in between, Commit and Space have the results.
--   Console      kernel/console.c: consoleintr with what it sends to the screen, consoleread and consolewrite between two
--                sleeps. Line is the input as a stream of characters whose positions do not wrap, Edit
--                about consoleintr, Got and Read about consoleread, Keys, Whole and Typed about keys and then a read.
--   Pipe         kernel/pipe.c: the loops of pipewrite and piperead between two sleeps. Ring
--                compares the ring and its wrapping counters with a stream of bytes, Flow is about
--                what passes through it.
--
--   Bio          kernel/bio.c and kernel/sleeplock.c. The list of buffers is two functions, prev and next, which
--                the six assignments of brelse change; Ring sees it as a sequence, Get is about bget, Recent
--                and Release about brelse and binit. bread and acquiresleep end where the process
--                would sleep.
--   File         kernel/file.c: the file table with filealloc, filedup and the critical section of fileclose; Refs
--                compares the counts with the references that the table's users hold.
--   Fs           kernel/fs.c and kernel/fs.h. A Store is the contents of the blocks as bread gives them; put is a
--                change of a block with its log_write and brelse, and notes the block, without the panics of log_write (Log has
--                these); change is one that does not reach the log. There is one
--                device. Blocks has bzero, balloc and bfree, with the bits of the free map in Bitmap; Inode has
--                iupdate and ilock on the bytes of struct dinode (Words, Layout); Bmap bmap and itrunc; Content
--                readi and writei, with Read about readi and Write about writei (Logs and Logged about the blocks that it logs); Table the inode table (iget, idup, iput, ialloc);
--                Dir dirlookup and dirlink; Path skipelem, namex, namei and nameiparent. The functions return
--                the inode, the store and the memory that they change. The locks of the inodes and the
--                buffers' reference counts are not part of it.
--   Vm           kernel/vm.c. A page table is in the memory of Kalloc, and an entry is the word at its address.
--                User has the operations on the memory of a process, Copy copyin, copyout and copyinstr over
--                walkaddr as a function from a page to its address, Copyin the theorem on copyin, Kernel the
--                kernel's page table, Table the tables as a map from addresses to entries (Step and Walk about walk,
--                Entry and Mapping about mappages, Address about walkaddr), Space proc_pagetable, proc_freepagetable and growproc of kernel/proc.c.
--   Uart         kernel/uart.c: the transmit ring, and the interrupt, which gives the keys to Console. How often the device
--                says that it is ready is an argument. Order compares the ring with a stream of characters.
--   Virtio       kernel/virtio_disk.c: the descriptors of the disk's queue. Alloc is about alloc3_desc, Chain about a
--                whole request.
--   User         user programs. Grep has the regular expressions of user/grep.c, and Language what a pattern
--                means. A C string is the list of its bytes before the NUL.
--
-- Bounds and fuel. Loops over the 64 processes and over a length are by recursion on the number of
-- rounds left, which is the loop's own bound. freerange_loop (Kalloc) and strlen_loop (Str) have no
-- such bound and are given a number of rounds; the theorem on kinit and the lemma on strlen say how many are enough.
-- The loops of balloc (Fs.Blocks), readi, writei, dirlookup, dirlink, copyin, copyout, copyinstr and mappages get one round more than
-- their ranges need, which their callers compute from the size, as each round passes a bitmap block, a byte,
-- an entry or a page. The walk along the buffers has NBUF + 1 rounds, the length of the list. skipelem
-- and namex get a bound on the length of the path, free_chain (Virtio) a bound on the length of the chain, and freewalk the three levels of a page table.
-- `int` is an integer, wrapped to 32 bits where the code's arithmetic can leave the range of an
-- `int` (the differences of memcmp and strncmp cannot). nextpid and the pids are the 32 bits of an `int`, and the theorems
-- on fork and allocproc hold while nextpid is below 2^31 - 1. The tick counters of a process are numbers without a bound.
--
-- Not modelled: hardware (device and control registers, the context switch, the page-table walk of
-- the processor), assembly, consoleinit, system calls, reading and writing of open files, exec, traps, and the user programs but for the matcher of grep; of the
-- file system fsinit and stati, of virtual memory uvmfirst. Locks of the process table are left out of Proc, whose functions are
-- the critical sections.
pub mod Common
pub mod Str
pub mod Vm
pub mod Virtio
pub mod Uart
pub mod User
pub mod Spinlock
pub mod Riscv
pub mod Log
pub mod Pipe
pub mod Bio
pub mod Console
pub mod File
pub mod Fs
pub mod Kalloc
pub mod Proc
