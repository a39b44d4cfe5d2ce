-- ===== src/Lib.antt =====
-- The file system of Challenge5 and the disk below it, the thread local storage of Challenge4, and
-- the threads of Challenge2.
--
-- Challenge5/fs.c keeps 64 inodes, 64 directory entries, 32 descriptors and a bitmap of 8192 blocks
-- in global arrays, and stores all but the descriptors in block 0 of a disk. It calls
-- Challenge5/disk.c, which keeps a disk in one file of the host.
--
-- Base: lists, tests, integers, bits, and `Outcome` for calls that can run into undefined behaviour.
-- Device: the interface of Challenge5/disk.h as a record of operations, and its laws.
-- Disk: Challenge5/disk.c, over the calls of the host in Disk/Posix, and its proof of the laws
--   (Disk/Laws; Disk/Blocks says what a client sees of a disk).
-- Fs/Types: the structs and globals of Challenge5/fs.c. Fs/Bitmap: findUsedBlocksBit and
--   writeUsedBlocksBit. Fs/Tables: findInode, findFD and findDirectory. Fs/Layout: the bytes of the
--   structs. Fs/Mount: make_fs, mount_fs and umount_fs. Fs/Files: fs_create, fs_open, fs_close and
--   fs_delete. Fs/Io: fs_read, fs_write, fs_get_filesize, fs_listfiles, fs_lseek and fs_truncate.
-- Fs/Shape, Fs/Invariant: well-formed tables, and how they refer to each other. Fs/Names: files
--   that are created and deleted, by their names.
--
-- Challenge4/tls.c gives each thread a storage in pages that only its calls open. Clones share pages,
-- with a count in each, until one of them writes.
--
-- Tls/Memory: mmap, mprotect and memcpy, as a record of operations, and its laws. Tls/Types: the
--   structs and globals of Challenge4/tls.c. Tls/Sizes: roundUp. Tls/Table: tls_init and findIndex.
--   Tls/Pages: the copy on write. Tls/Transfer: boundaryWrite and boundaryRead. Tls/Calls: tls_create,
--   tls_destroy, tls_read, tls_write, tls_clone and sfHandle.
-- Tls/Refs, Tls/Invariant: the counts of the pages, and well-formed tables. Tls/Lookup, Tls/Bytes,
--   Tls/Copy, Tls/Loops, Tls/Entry: what the helpers change. Tls/Creation,
--   Tls/Allocation, Tls/Writing, Tls/ReadLoop, Tls/Reading, Tls/Sharing, Tls/RoundTrip: the calls.
--
-- Challenge2/threads.c gives turns to the threads of a table, with `setjmp` and `longjmp`.
--
-- Threads/Types: the structs and globals of Challenge2/threads.c. Threads/Schedule: schedule and
--   scheduler_init. Threads/Mutex, Threads/Barrier, Threads/Life: the calls on mutexes, on barriers,
--   and pthread_create, pthread_exit and pthread_self.
-- Threads/Circle, Threads/Entries, Threads/Turns: the next turn. Threads/Locks, Threads/Waiting,
--   Threads/Starting, Threads/Exiting: what the other calls do.
--
-- Tests: a host, file systems, storages and threads that are given in full, with the theorems
--   applied to them.
--
-- A function of the code takes and returns the state `FileSystem`, with the world behind the device
-- as its last field. It returns `none` for -1. `fault` stands for undefined behaviour: an index
-- outside an array, a copy past a buffer, or a shift by a negative number. Buffers that hold
-- arbitrary bytes (those of `malloc`, arrays on the stack, and the bytes behind an array that is
-- too short) are arguments. Both over-reads of an array of block numbers have such an argument:
-- `behind` in fs_create, the 3584 bytes behind the 512 of the array, and `stack` in fs_delete,
-- where the read also writes past the array, taken to hit nothing that the function uses. A name
-- of 15 characters puts its terminating 0 in the byte of padding behind the array, so that a name
-- has 16 bytes here. Loops are structural: over the arrays, and over the 8192 blocks in
-- findUsedBlocksBit and make_disk, where the number of rounds is the bound of the loop.
--
-- The one write behind an allocation that is not a fault is that of fs_listfiles: its model gives the
-- cells that it writes beside the number that it allocates.
--
-- Taken from outside: the host, through `Host` and `IsHost`, where a `write` that does not fail
-- writes all bytes, and a `read` inside the file returns all that it asked for. `malloc` succeeds.
-- Padding bytes of the structs are 0, and `1 << 31` sets bit 31. File names are never NULL. The
-- argument `disk_name` of umount_fs, which the code does not use, is left out, as are the messages
-- to the terminal.
--
-- In the model of Challenge4 a pointer to a page is its number among the pages that were allocated.
-- `mmap` succeeds, and a page that can be written can be read, as on x86. The mutexes are left out:
-- the calls run one after another. A thread is an argument, where the code has `pthread_self()`. A
-- length is below 2^31, where the code passes it on as an `int`.
--
-- In the model of Challenge2 a `jmp_buf` is a context of any type. `schedule` gets the context that
-- `setjmp` saves, and a call returns, jumps to a context, runs for ever, or ends the process. A thread
-- that blocks in `pthread_barrier_wait` goes on with `barrier_leave`. No timer signal comes between
-- `lock()` and `unlock()` or inside `schedule`, and `ualarm` and `sigaction` succeed. The search for
-- the next thread has a number of rounds, one for each thread: it changes no status, so that a full
-- circle without a thread means that it runs for ever. Stacks are left out.
--
-- Not modelled: Challenge1 (a shell), checkSegFault in Challenge4/tls.c, which prints an address, and
-- the programs that test the libraries.
pub mod Base
pub mod Device
pub mod Disk
pub mod Fs
pub mod Tls
pub mod Threads
pub mod Tests
