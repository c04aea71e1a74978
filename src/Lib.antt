-- ===== src/Lib.antt =====
-- Verification of posixipc: the core in C, src/core, and what waits on it from Python, src/bindings.
--
-- The program puts rings, locks and bytes into POSIX shared memory. A segment starts with a header
-- and a directory of slots (posixipc_shm.c, posixipc_layout.c); its slots hold the locks of the C
-- library (posixipc_mutex.c, _rwlock.c, _cond.c, _sem.c, _barrier.c, _spin.c) and rings
-- (posixipc_queue.c, posixipc_futexq.c), which processes wait on through posixipc_futex.c.
-- Deadlines are those of posixipc_time.c.
--
-- Which module models what:
--   Prelude, Codes, Word, Align, Config: the shared names, the status codes, 32-bit words and their
--     bit operations, the two `align_up` functions, and the configuration of the build.
--   Queue: src/core/posixipc_queue.c. `Memory` is what one process sees under the put lock. Ring
--     states the invariant and the list of items, Fifo is the specification, a bounded queue; Put,
--     Get and Refine prove the refinement; Size is about the sizes and the mapping; Recover about
--     `posixipc_queue_recover`, and Crash about a process that dies between two stores. System is
--     several processes and the robust lock as a step relation: a step is one store, a death at any
--     point, or a take-over with its recovery.
--   Layout: src/core/posixipc_layout.c. Digest has the slots and their digest, Place and Build what
--     an accepted layout is, Rebuild that it can be built again.
--   Os, Time, Shm: src/core/posixipc_time.c and posixipc_shm.c, which call the system through an
--     `Os`: what each call replies may depend on all that came before, so that every order of
--     failures, and of what other processes do, is covered. A `Watch` is a descriptor, a mapping by
--     its address and length, and a name, whose opens and closes, maps and unmaps, creates and
--     unlinks are counted; a close, a munmap or an unlink counts for what it names, whatever it
--     replies. Shm has `create` and the operations on a handle; Name, Compare, Attach, OpenOrCreate
--     and Pointer the others.
--   Calls, Mutex, Rwlock, Cond, Barrier, Spin, Sem, Futex, Futexq, Mq, Nsem, Memfd, Eventfd: the files
--     of these names. The functions of the C library are a parameter `Reply`, and each model keeps
--     the log of its calls. Clocksym has the static variables of posixipc_clocksym.c as a state.
--   Bindings: src/bindings. Run has code that may run out of fuel, and what holds after it; Errors
--     is py_errors.c; Acquire and Wait are py_wait.c, the options of a call and the wait in slices
--     of 50 ms, and Wait/Counting a wait that counts what it takes. Exchange is what put and get of
--     both queues share: the lock, the rounds of a wait and the last try. Ring is py_queue.c and
--     FutexRing the queue of py_linux.c, over the models of the mutex, the condition variables, the
--     futex words, the clocks and the ring. What other processes do there is the memory that a lock
--     or a wait comes back with; System says why it is a ring. Lock is py_mutex.c, the mutex object
--     and its flag; Sharing and Semaphore are the read-write locks and the semaphores of py_sync.c,
--     Array is py_array.c and FutexObject the futex of py_linux.c. Region is py_shm.c, the object of
--     a segment, and Threads in it the pins and closes of several threads, a step for each access.
--   Examples: the theorems at concrete inputs.
--
-- The memory order of the atomics is not modelled: a store is one step, and a process sees the stores
-- of the owners before it. The loops of `attach`, of `futex_wait`, of `blocking_wait` and of the Python
-- objects run on fuel: running out is a result of its own. `attach` and `futex_wait` need a round for
-- each step of the clock and for each interruption, a `blocking_wait` with a deadline one for each 50 ms
-- up to it and one more, a put_nowait or get_nowait one, and a put or a get that waits for other
-- processes may take any number. A `double` of seconds is the parts of it that the code reads. Not
-- modelled: py_layout.c, py_m3.c and module.c, the message queue objects of py_queue.c, the memfd
-- and eventfd objects of py_linux.c, the conditions, the barriers and the `with` of the read-write
-- locks of py_sync.c, the making, binding and pickling of the objects of Python, and the tests.
pub mod Prelude
pub mod Codes
pub mod Word
pub mod Align
pub mod Queue
pub mod Config
pub mod Layout
pub mod Os
pub mod Time
pub mod Shm
pub mod Calls
pub mod Mutex
pub mod Rwlock
pub mod Cond
pub mod Barrier
pub mod Spin
pub mod Sem
pub mod Futexq
pub mod Futex
pub mod Examples
pub mod Mq
pub mod Nsem
pub mod Eventfd
pub mod Memfd
pub mod Clocksym
pub mod Bindings
