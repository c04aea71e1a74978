-- ===== src/Bindings/Ring.antt =====
-- src/bindings/py_queue.c: how a bound queue is locked, waited for and closed. The
-- state is the shared memory as this process sees it and the calls it made of the functions of
-- posixipc_mutex.c, posixipc_cond.c and posixipc_time.c. What other processes do is in the replies:
-- each lock and each wait comes back with the memory as they left it.
pub mod Laws
pub mod Waiting
pub mod Transfer
use posixipc.Prelude.{
  ℕ, zero, suc, ◌≡◌, Bool, true, false, not, ◌&&◌, ◌||◌, Option, none, some, List, is_null, length,
  ltb, leb, ◌==◌, ◌!=◌, if◌then◌else◌,
}
use Prim.Native.Nat.{bit_and, bit_or}
use posixipc.Codes.{success, einval, etimedout, error_interrupted, eownerdead, enotrecoverable}
use posixipc.Os.{Os, Trace}
use posixipc.Calls.{Log, Reply, Calls}
use posixipc.Time.{Seconds, Deadline, deadline_from_seconds}
use posixipc.Mutex.{mutex_lock, mutex_unlock, mutex_consistent}
use posixipc.Mutex
use posixipc.Cond.{cond_clock, cond_signal, cond_broadcast, cond_wait, cond_wait_until}
use posixipc.Cond
use posixipc.Queue.{View, Memory, recover, put, get, qsize}
use posixipc.Bindings.Acquire.{Opts}
use posixipc.Bindings.Errors.{Raised}
use posixipc.Bindings.Run.{Run, give, plain, ◌>>=◌, ◌>>◌}
use posixipc.Bindings.Wait.{lift, blocking_wait}
use posixipc.Bindings.Region.{Region, posixipc_shmobj_unpin}

-- `PosixIPCQueueObject`
pub record QueueObject : Type 0 where
  pub flags : ℕ
  pub put_lock : Option ℕ
  pub get_lock : Option ℕ
  pub not_full : Option ℕ
  pub not_empty : Option ℕ
  pub region : Option ℕ
  pub view : View
  pub depth : ℕ
  pub item_size : ℕ
  pub cond_flags : ℕ

-- `mem` is the memory now, and `found` as it was when the lock was last taken.
pub record World : Type 0 where
  pub mem : Memory
  pub found : Memory
  pub mutexes : Log Mutex.Call
  pub conds : Log Cond.Call

pub record Env : Type 0 where
  pub mutex : World → Reply Mutex.Call
  pub cond : World → Reply Cond.Call
  -- what the memory holds when a lock or a wait returns
  pub memory : World → Memory
  -- `PyErr_CheckSignals() < 0`
  pub interrupts : World → Trace → Bool

abbrev pub State : Type 0
State = World × Trace

abbrev pub flag_closed : ℕ
flag_closed = 8

abbrev pub flag_bound : ℕ
flag_bound = 16

-- `queue_check_open`
pub queue_is_closed : QueueObject → Bool
queue_is_closed q = bit_and q.flags flag_closed != 0

pub queue_check_open : QueueObject → Option Raised
queue_check_open q =
    if bit_and q.flags flag_closed != 0
    then some Raised.closed_error
    else if bit_and q.flags flag_bound == 0 || is_null q.put_lock || is_null q.region
    then some Raised.unbound
    else none

module _ (os : Os) (env : Env) (q : QueueObject) where
  -- a function of posixipc_mutex.c, and one of posixipc_cond.c
  abbrev pub on_mutex : (Reply Mutex.Call → Calls Mutex.Call ℕ) → State → ℕ × State
  on_mutex f (w, tr) =
      let (rc, log) = f (env.mutex w) w.mutexes in (rc, (record w { mutexes = log }, tr))

  abbrev pub on_cond : (Reply Cond.Call → Calls Cond.Call ℕ) → State → ℕ × State
  on_cond f (w, tr) = let (rc, log) = f (env.cond w) w.conds in (rc, (record w { conds = log }, tr))

  -- a call that may come back with other memory
  abbrev pub lent : ℕ × State → ℕ × State
  lent (rc, (w, tr)) = (rc, (record w { mem = env.memory w; found = env.memory w }, tr))

  abbrev pub unlock : Run State ℕ
  unlock = plain (on_mutex λ reply. mutex_unlock reply q.put_lock)

  abbrev pub broadcast_both : Run State ℕ
  broadcast_both = do
    plain (on_cond λ reply. cond_broadcast reply q.not_full)
    plain (on_cond λ reply. cond_broadcast reply q.not_empty)

  abbrev pub on_queue : (Memory → ℕ × Memory) → State → ℕ × State
  on_queue f (w, tr) = let (rc, m) = f w.mem in (rc, (record w { mem = m }, tr))

  -- what `queue_lock` and `queue_wait_cond` do on EOWNERDEAD; `failed` is what they do before they
  -- return the status of a step that failed
  pub recover_ring : (ℕ → Run State ℕ) → Run State ℕ
  recover_ring failed = do
    rc ← plain (on_queue (recover (some (q.view))))
    if rc != success then failed rc else do
      rc' ← plain (on_mutex λ reply. mutex_consistent reply q.put_lock)
      if rc' != success then failed rc' else do broadcast_both; give success

  pub queue_lock : Run State ℕ
  unfolding recover_ring
  queue_lock = do
    rc ← plain (λ s. lent (on_mutex (λ reply. mutex_lock reply q.put_lock) s))
    if rc == eownerdead then recover_ring (λ rc'. do unlock; give rc') else give rc

  -- `queue_cond_until_cb`
  unfoldable pub queue_cond_until_cb : Option ℕ → Deadline → State → ℕ × State
  queue_cond_until_cb cond slice s =
      lent (on_cond (λ reply. cond_wait_until reply cond q.put_lock (some slice)) s)

  pub check_signals : State → Bool × State
  check_signals (w, tr) = (env.interrupts w tr, (w, tr))

  -- behind the wait
  pub waited : ℕ → Run State ℕ
  unfolding recover_ring
  waited rc = if rc == eownerdead then recover_ring give else give rc

  -- with the deadline, `none` for NULL
  pub wait_until : ℕ → Option ℕ → Opts → Option Deadline → Run State ℕ
  unfolding waited queue_cond_until_cb check_signals
  wait_until fuel cond opts user = do
    rc ←
        blocking_wait os check_signals (queue_cond_until_cb cond) fuel user opts.interruptible
          (cond_clock q.cond_flags)
    waited rc

  pub deadline_set : ℕ → Option ℕ → Opts → ℕ × Option Deadline → Run State ℕ
  unfolding wait_until
  deadline_set fuel cond opts (rc, none) = give rc
  deadline_set fuel cond opts (rc, some user) = wait_until fuel cond opts (some user)

  -- with the timeout, `none` for `timeout_none`
  pub with_timeout : ℕ → Option ℕ → Opts → Option Seconds → Run State ℕ
  unfolding waited wait_until deadline_set
  with_timeout fuel cond opts (some t) =
      plain (lift (deadline_from_seconds os (cond_clock q.cond_flags) t true))
      >>= deadline_set fuel cond opts
  with_timeout fuel cond opts none =
      if not opts.interruptible
      then (plain (λ s. lent (on_cond (λ reply. cond_wait reply cond q.put_lock) s)) >>= waited)
      else wait_until fuel cond opts none

  -- The exception that is set for POSIXIPC_ERROR_INTERRUPTED is that of the signal handler.
  pub queue_wait_cond : ℕ → Option ℕ → Opts → Run State ℕ
  unfolding with_timeout
  queue_wait_cond fuel cond opts = with_timeout fuel cond opts opts.timeout

-- `r` is the object of the region, which is pinned by a queue that has one.
pub queue_close : QueueObject → Region → QueueObject × Region
unfolding queue_is_closed
queue_close q r = if queue_is_closed q then (q, r) else (
  record q {
    region = none;
    put_lock = none;
    get_lock = none;
    not_full = none;
    not_empty = none;
    flags = bit_or q.flags flag_closed;
  },
  if is_null q.region then r else posixipc_shmobj_unpin r,
)
