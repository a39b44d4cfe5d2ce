-- ===== src/Threads.antt =====
-- Challenge2/threads.c: threads that take turns, mutexes and barriers.
pub mod Types
pub mod Schedule
pub mod Mutex
pub mod Barrier
pub mod Life
pub mod Circle
pub mod Entries
pub mod Turns
pub mod Locks
pub mod Waiting
pub mod Starting
pub mod Exiting
