-- ===== src/Bindings/FutexRing.antt =====
-- src/bindings/py_linux.c: the queue whose waiters sleep on futex words, its lock and its waits, with the
-- options parsed; Transfer has put, get and qsize. The state is the shared memory as this process
-- sees it and the calls it made; what other processes do is in the memory that a lock comes back with.
pub mod Laws
pub mod Waiting
pub mod Transfer
use Prim.Native.Nat.{bit_and, bit_or}
use mathlib.Core.Option
use posixipc.Prelude.{
  ℕ, Bool, true, false, not, ◌&&◌, ◌||◌, Option, none, some, List, is_null, length, ltb, ◌==◌, ◌!=◌,
  if◌then◌else◌,
}
use posixipc.Codes.{success, einval, eintr, etimedout, eownerdead}
use posixipc.Os.{Os, Trace}
use posixipc.Calls.{Log, Reply, Calls, clock_monotonic}
use posixipc.Time.{Seconds, Deadline, deadline_from_seconds}
use posixipc.Mutex.{mutex_lock, mutex_unlock, mutex_consistent}
use posixipc.Mutex
use posixipc.Futex.{futex_add, futex_load, futex_wait, futex_wake}
use posixipc.Futex
use posixipc.Futexq.{FutexqView, FutexqMemory}
use posixipc.Queue.{View, Memory, recover, put, get, qsize}
use posixipc.Bindings.Errors.{Raised, posixipc_err, Outcome, returned, raised}
use posixipc.Bindings.Run.{Run, give, plain, ◌>>=◌, ◌>>◌}
use posixipc.Bindings.Acquire.{Opts, nowait_opts}
use posixipc.Bindings.Wait.{lift, blocking_wait}
use posixipc.Bindings.Exchange.{when_open, when_locked, unlock_and, loop}
use posixipc.Bindings.Region.{Region, posixipc_shmobj_unpin}

-- `PosixIPCFutexQueueObject`
pub record FutexQueueObject : Type 0 where
  pub flags : ℕ
  pub put_lock : Option ℕ
  pub get_lock : Option ℕ
  pub region : Option ℕ
  pub view : FutexqView
  pub depth : ℕ
  pub item_size : ℕ

-- `mem` is the memory now, and `found` the ring as it was when the lock was last taken.
pub record World : Type 0 where
  pub mem : FutexqMemory
  pub found : Memory
  pub mutexes : Log Mutex.Call
  pub futexes : Log Futex.Call

pub record Env : Type 0 where
  pub mutex : World → Reply Mutex.Call
  pub futex : World → Reply Futex.Call
  -- what the memory holds when a lock returns
  pub memory : World → FutexqMemory
  -- `PyErr_CheckSignals() < 0`
  pub interrupts : World → Trace → Bool

abbrev pub State : Type 0
State = World × Trace

abbrev pub flag_closed : ℕ
flag_closed = 8

abbrev pub flag_bound : ℕ
flag_bound = 16

abbrev pub int_max : ℕ
int_max = 2147483647

-- one of the two words
pub data Word : Type 0 where
  not_full not_empty : Word

pub fq_is_closed : FutexQueueObject → Bool
fq_is_closed q = bit_and q.flags flag_closed != 0

pub fq_check_open : FutexQueueObject → Option Raised
fq_check_open q =
    if bit_and q.flags flag_closed != 0
    then some Raised.closed_error
    else if bit_and q.flags flag_bound == 0 || is_null q.put_lock || is_null q.region
    then some Raised.unbound
    else none

abbrev pub address : FutexqView → Word → ℕ
address v Word.not_full = v.not_full
address v Word.not_empty = v.not_empty

abbrev pub value : FutexqMemory → Word → ℕ
value m Word.not_full = m.not_full
value m Word.not_empty = m.not_empty

-- `posixipc_futex_add(word, 1u)`
abbrev pub add_one : Word → FutexqMemory → FutexqMemory
add_one Word.not_full m = record m { not_full = (futex_add m.not_full 1).1 }
add_one Word.not_empty m = record m { not_empty = (futex_add m.not_empty 1).1 }

module _ (os : Os) (env : Env) (q : FutexQueueObject) where
  -- a function of posixipc_mutex.c, and one of posixipc_futex.c
  abbrev pub on_mutex : (Reply Mutex.Call → Calls Mutex.Call ℕ) → State → ℕ × State
  on_mutex f (w, tr) =
      let (rc, log) = f (env.mutex w) w.mutexes in (rc, (record w { mutexes = log }, tr))

  abbrev pub on_futex : (Reply Futex.Call → Calls Futex.Call ℕ) → State → ℕ × State
  on_futex f (w, tr) =
      let (rc, log) = f (env.futex w) w.futexes in (rc, (record w { futexes = log }, tr))

  abbrev pub on_ring : (Memory → ℕ × Memory) → State → ℕ × State
  on_ring f (w, tr) =
      let (rc, m) = f w.mem.ring in (rc, (record w { mem = record w.mem { ring = m } }, tr))

  abbrev pub add : Word → State → ℕ × State
  add word (w, tr) = (success, (record w { mem = add_one word w.mem }, tr))

  abbrev pub wake : Word → ℕ → State → ℕ × State
  wake word n = on_futex λ reply. futex_wake reply (some (address q.view word)) false n true

  abbrev pub unlock : Run State ℕ
  unlock = plain (on_mutex λ reply. mutex_unlock reply q.put_lock)

  -- `posixipc_mutex_lock`, which may come back with other memory
  abbrev pub take_lock : State → ℕ × State
  take_lock (w, tr) =
      let (rc, log) = mutex_lock (env.mutex w) q.put_lock w.mutexes in
      (rc, (record w { mutexes = log; mem = env.memory w; found = (env.memory w).ring }, tr))

  abbrev pub wake_all : Run State ℕ
  wake_all = do
    plain (add Word.not_full)
    plain (add Word.not_empty)
    plain (wake Word.not_full int_max)
    plain (wake Word.not_empty int_max)
    give success

  abbrev pub unlock_failed : ℕ → Run State ℕ
  unlock_failed rc = do unlock; give rc

  -- behind EOWNERDEAD in `fq_lock`
  pub recover_ring : Run State ℕ
  recover_ring = do
    rc ← plain (on_ring (recover (some q.view.view)))
    if rc != success then unlock_failed rc else do
      rc' ← plain (on_mutex λ reply. mutex_consistent reply q.put_lock)
      if rc' != success then unlock_failed rc' else wake_all

  pub fq_lock : Run State ℕ
  unfolding recover_ring
  fq_lock = do rc ← plain take_lock; if rc == eownerdead then recover_ring else give rc

  pub check_signals : State → Bool × State
  check_signals (w, tr) = (env.interrupts w tr, (w, tr))

  -- The fuel is that of `futex_wait`, which with a deadline takes one round.
  pub futex_wait_cb : Word → ℕ → Deadline → State → ℕ × State
  futex_wait_cb word expected slice (w, tr) =
      let (r, log) =
        futex_wait (env.futex w) 1 (some (address q.view word)) expected (some slice) true
          w.futexes in
      let rc = Option.get_or r etimedout in
      (if rc == eintr then etimedout else rc, (record w { futexes = log }, tr))

  -- the lock again, behind a wait or a clock that gave `rc`
  pub lock_again : ℕ → Run State ℕ
  unfolding fq_lock
  lock_again rc = do lrc ← fq_lock; give (if lrc != success then lrc else rc)

  -- with the deadline, `none` for NULL
  pub wait_until : ℕ → Word → ℕ → Bool → Option Deadline → Run State ℕ
  unfolding lock_again futex_wait_cb check_signals
  wait_until fuel word expected interruptible user = do
    rc ←
        blocking_wait os check_signals (futex_wait_cb word expected) fuel user interruptible
          clock_monotonic
    lock_again rc

  pub deadline_set : ℕ → Word → ℕ → Bool → ℕ × Option Deadline → Run State ℕ
  unfolding wait_until lock_again
  deadline_set fuel word expected interruptible (rc, none) = lock_again rc
  deadline_set fuel word expected interruptible (rc, some user) =
      wait_until fuel word expected interruptible (some user)

  -- behind the unlock, with the timeout, `none` for `timeout_none`
  pub with_timeout : ℕ → Word → ℕ → Bool → Option Seconds → Run State ℕ
  unfolding wait_until deadline_set
  with_timeout fuel word expected interruptible (some t) =
      plain (lift (deadline_from_seconds os clock_monotonic t true))
      >>= deadline_set fuel word expected interruptible
  with_timeout fuel word expected interruptible none =
      wait_until fuel word expected interruptible none

  -- The word is read under the lock.
  pub fq_wait_word : ℕ → Word → Opts → Run State ℕ
  unfolding with_timeout
  fq_wait_word fuel word opts (w, tr) =
      (do
        rc ← unlock
        if rc != success
            then give rc
            else with_timeout fuel word (futex_load (value w.mem word)) opts.interruptible
                opts.timeout)
        (w, tr)

-- `r` is the object of the region, which is pinned by a queue that has one.
pub fq_close : FutexQueueObject → Region → FutexQueueObject × Region
unfolding fq_is_closed
fq_close q r = if fq_is_closed q then (q, r) else (
  record q { region = none; put_lock = none; get_lock = none; flags = bit_or q.flags flag_closed },
  if is_null q.region then r else posixipc_shmobj_unpin r,
)
