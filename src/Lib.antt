-- ===== src/Lib.antt =====
-- Verification of the kernel's core data structures and policies.
--
-- The kernel is a teaching operating system. Its file system allocates sectors with a bitmap, its
-- files are multi-level indices of sectors, read and written through a buffer cache whose blocks
-- have read-write locks, its threads talk over bounded queues and pipes that are monitors, and a
-- completely fair scheduler picks the next thread of each CPU.
--
--   Base        numbers, lists, options and bits that the other files share; Base/Int has C's
--               signed integers
--   Bitmap      src/lib/kernel/bitmap.c: `struct bitmap` and its calls, on 32-bit words. View says
--               what array of bits a bitmap stands for; Single, Range and Scan are about one bit, a
--               range of bits and a search.
--   FreeMap     src/filesys/free-map.c over Bitmap: which disk sectors are in use
--   Inode       src/filesys/inode.c over FreeMap: a `Volume` is the words of each sector and the
--               free map. Slots says which places of a file's index name sectors and when an index
--               is well formed; Install, Grant, Kept, Lookup, Sector and Read are about
--               `byte_to_sector`, Bytes about reads, Words, Keep, Write, WriteLoop and RoundTrip
--               about writes; Frame and Isolation say what a write leaves alone; Close gives a
--               removed file's sectors back; Open is the list of open inodes, with creation in its
--               child Create
--   File        src/filesys/file.c over Inode and Pipe: reads, writes and positions of open files;
--               RoundTrip has a write and the read of it
--   Cache       src/filesys/cache.c over RwLock: `struct cache_block` and the two lists; Blocks has
--               the words that the cache gives each sector and the invariant, Reserve is about
--               finding and evicting a block, Use and Refine about its users, Flush and Init about
--               the calls they are named for
--   Palloc      src/threads/palloc.c over Bitmap: the kernel's and the user's pool of pages; Pages
--               is about requests, Free about giving pages back
--   Ring        the ring buffer of src/lib/kernel/queue.c and src/filesys/pipe.c: fields `buffer`,
--               `capacity`, `head` and `tail`; Items and Laws say what list it holds
--   Monitor     the answer of a call that may sleep in `cond_wait`
--   Queue       src/lib/kernel/queue.c: `struct array_queue`; Fifo is its specification, Refine the
--               refinement, Wait the calls that sleep
--   Pipe        src/filesys/pipe.c: `struct pipe`; Turns is about one byte, Transfer about reads
--               and writes, Ends about open and close
--   IntQueue    src/devices/intq.c: `struct intq`, the bytes that a driver's interrupt handler and
--               its threads share; Bytes is about what it holds
--   Synch       src/threads/synch.c: `struct semaphore`, `struct lock` and `struct condition`.
--               System is the step relation of the threads at one lock and one condition; Counts,
--               Invariant and Turns are its invariant, Safety what follows
--   Arithmetic  src/lib/arithmetic.c: 64-bit division. Shift is about `nlz`, Estimate about the
--               quotient that the divisor's first 32 bits give, Divide about numbers, Signed about
--               integers
--   Malloc      src/lib/user/malloc.c: the heap of user programs. Layout is about the blocks that
--               tile it, Tiling about a block that becomes free or used, Lists about the free
--               lists, Join and Merge about `coalesce`, Payload about the words in use, Coalesce
--               about `free`, Extend about growth, Place and Split about `place`, Search about
--               `find_fit`, Allocate about `malloc`
--   RwLock      src/filesys/rw-lock.c: `struct rw_lock`; System is the step relation of its
--               threads, Alone its use by one thread
--   Scheduler   src/threads/scheduler.c: `struct ready_queue` and the fields of `struct thread`
--               that it uses. Charged and Unblock are about a thread that wakes up
--   Strings     src/lib/string.c: blocks and strings in a memory of bytes; Search has the searches
--               and the tokenizer, Memory, Move and Copy the theorems on strings, moves and copies
--
-- An `uint32_t` or a `size_t` is a natural number with `% 2 ^ 32` written where C wraps around; an
-- `int` or an `int64_t` is an integer, since C leaves its overflow undefined. A failed ASSERT, a
-- panic or a read outside an array is `none`. What the kernel's malloc returns is an argument:
-- whether there is room, and the words or bytes it points to. The free map's file is an argument
-- of FreeMap, with a write that may stop the kernel and leaves the rest of the volume alone: it
-- rewrites sectors that the file has from its creation on. Where a theorem needs the write to
-- return, it says so.
--
-- A monitor call that sleeps takes the list of the states in which it gets its lock back: each is
-- the work of other threads, and all theorems hold for every such list. When the list ends the call
-- is still asleep, `waiting`. So no call needs fuel; loops over a range of bits or of bytes recurse
-- on the number of their turns, and `bitmap_scan` on the number of places left. A walk along a
-- string has as many rounds as the memory has bytes: one that has not ended by then has read
-- outside the memory.
--
-- Inode takes the disk as the words that the cache gives each sector. Its positions and lengths,
-- of type `off_t`, are natural numbers below 2^31, and its counts of openers wrap around.
-- `inode_open` is one call that no other overlaps; Open/Overlap has two whose searches come before
-- both insertions. A loop of a read or a write has at most as many rounds as it has bytes left,
-- the return of a file's sectors as many as the length has sectors. Cache is one thread's use of
-- the cache.
--
-- The system of RwLock counts the threads in each role; a signal moves one sleeper to the woken,
-- and a woken thread runs the rest of its call later, after any other steps. The scheduler's
-- threads are a map from identities to fields, as the ready list shares them with the CPU; each
-- operation is one call under the queue's lock.
--
-- Synch splits each call of a lock or a condition where another thread can come between: a turn
-- ends at a semaphore. A thread calls what it likes when it is in no call. The monitors of the
-- other files rest on these locks and conditions, and are not built from them here.
--
-- Malloc counts its addresses in words, and its sizes wrap around in their signed 30 bits; its
-- theorems are about heaps below 2 GB. The kernel's answer to `sbrk` is an argument. A search of a
-- free list recurses on the list, and the search of the lists on their number.
--
-- Not modelled: spinlocks and the switch of interrupts and threads, the creation of the free map's
-- file, directories, threads that reserve blocks of the cache or open inodes at the same time, the
-- queue of the read-ahead, the load balancing between CPUs, `realloc` of user programs, the opening
-- of files and the list of the open ones, the device drivers, the page tables, the system calls,
-- and the user programs.
pub mod Base
pub mod Bitmap
pub mod FreeMap
pub mod Ring
pub mod Monitor
pub mod Queue
pub mod Pipe
pub mod RwLock
pub mod Scheduler
pub mod Strings
pub mod Palloc
pub mod IntQueue
pub mod Inode
pub mod Cache
pub mod Arithmetic
pub mod Synch
pub mod Malloc
pub mod File
