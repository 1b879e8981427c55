-- ===== src/Lib.antt =====
-- ScarlettOS: models of parts of the kernel and what holds of them.
--
-- The kernel is a set of C files that share memory behind spinlocks. Modelled are the physical page
-- allocator, the kernel heap and its slab allocator, the scheduler, the access checks of the file
-- system, roles, the audit log, the capability tables, the message ports, the blocking locks and the
-- big numbers of the cryptography; the ports ask the capability tables whether the current process
-- may use them.
--
-- Mm/Pmm (kernel/mm/pmm.c): the static variables are the record `Pmm`; `pmm_init` is `init`,
--   `pmm_alloc_page` is `alloc_page`, and so on without the prefix. `page_bitmap` holds the bytes of
--   the source, with its bit operations. Mm/Pmm/Calls has the entry points as data, for any sequence
--   of calls.
-- Mm/Heap (kernel/mm/heap.c): the blocks with their addresses in a list, the statistics beside them.
--   `allocate` is what `kmalloc` does once the slab allocator has not served the request.
--   Mm/Heap/Blocks says what memory is in use, the other children what searching, splitting,
--   freeing, coalescing and growing do to it.
-- Mm/Slab (kernel/mm/slab.c): a page of objects with its bitmap, and the caches of `slab_alloc`;
--   Mm/Slab/Nested is a small request as `kmalloc` and `slab_alloc` hand it to each other.
-- Fs/Permissions (kernel/fs/permissions.c) and Fs/Acl (kernel/fs/acl.c): mode bits and access
--   control lists; the functions have the source's names without their prefixes.
-- Security/Capability (kernel/security/capability.c): the tables of all processes and the id counter
--   are the record `System`. Security/Capability/Message is `capability_transfer`, which writes into
--   the message of Ipc/Message (kernel/include/ipc/ipc.h).
-- Security/Rbac (kernel/security/rbac.c): the static table is the record `Rbac`;
--   Security/Rbac/Refines has the relation between users, roles and permissions and the calls as
--   data, Security/Rbac/Run any sequence of calls with their answers.
-- Security/Audit (kernel/security/audit.c): the ring buffer and its queries; `Keeps` of
--   Security/Audit/Ring says which entries the buffer holds.
-- Sched/Scheduler (kernel/sched/scheduler.c): the fields of the threads as functions of their
--   address, a run queue per CPU, the lists linked through `next`. `Holds` of Sched/Scheduler/Queue
--   says which threads such a list holds. Sched/Scheduler/Threads has what threads ask for
--   (`thread_block` and the like), Sched/Scheduler/Start the set-up of a CPU, Sched/Scheduler/Timer
--   the timer's tick.
-- Crypto/Bn (kernel/crypto/bn.c): `bn_add` is `add`, and so on without the prefix; the words of a
--   number are a list. Crypto/Bn/Words has the number that they stand for, Crypto/Bn/Divide the
--   shift, the division and the modulus, Crypto/Bn/Gcd the greatest common divisor. A function gets
--   every answer of `kmalloc` as an argument; the functions that do not look at such an answer have
--   a fault as a result of its own.
-- Ipc (kernel/ipc/ipc.c): Ipc/Port is one port and the critical sections that run under its lock,
--   Ipc/Port/Queue the interleavings of threads on it as a step relation. Ipc/Table is the port
--   table and the entry points; a thread that blocks in `ipc_send` or `ipc_receive` goes on in
--   `resume_send` or `resume_receive`. Ipc/Rights is the interface to the capability tables, which
--   Security/Capability fills. Ipc/Table/Reply is `ipc_call`.
-- Sync (kernel/sync/mutex.c, semaphore.c and rwlock.c): each function is split into the critical
--   sections under the lock's spinlock, `lock_round` and `end_wait` for the two of `mutex_lock`'s
--   loop; `Step` lets threads run them in any order, with the threads inside and waiting beside the
--   lock.
-- Base: shared names, arrays as lists or as functions of the index, bits of a byte, error codes.
--
-- Conventions. A function that changes state returns the new state beside its result. A pointer that
-- may be NULL is an `Option`. Machine words are natural numbers with the wrap-around written out
-- where the source can reach it. What a function asks of another file (`kmalloc`,
-- `process_get_current`, symbols of the linker) is an argument. Where one lock is held throughout, a
-- function is one atomic step. Messages to the console are left out.
--
-- Bounds. Loops over arrays and page ranges recur on the rounds left, which the loop's own bound
-- gives: `total_pages - 512` rounds reach every page from 2 MB on, `total_pages` rounds every page.
-- Words of 64 bits have at most 64 bits to count. A walk along a linked list of threads has fuel for
-- the list's length, and answers `none` beyond it, as it does where the source waits for a lock that
-- is held. The loop of `bn_gcd` has fuel for the second number. A query of the audit log takes at
-- most as many rounds as the buffer has entries.
--
-- Not modelled: the contents of heap blocks (`krealloc`, `kzalloc`) and what `kfree` does to a
-- pointer that is no block's; two CPUs inside the scheduler at the same time; of the big numbers the
-- right shift, byte strings, powers, inverses and primes; of the slab allocator the ways back;
-- virtual memory, the other schedulers, processes, network protocols, the file systems' formats,
-- drivers, graphics, boot loaders and user-space programs; memory barriers and the processors'
-- ordering of memory accesses.
pub mod Base
pub mod Mm
pub mod Fs
pub mod Security
pub mod Sync
pub mod Crypto
pub mod Sched
pub mod Ipc
