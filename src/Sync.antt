-- ===== src/Sync.antt =====
-- kernel/sync: the blocking locks. Each critical section under a lock's own spinlock is one step, a
-- thread that waits repeats its section, and a list or a counter beside the lock says which threads
-- are where.
pub mod Mutex
pub mod Semaphore
pub mod Rwlock
mod Tests
