-- ===== src/Bindings/Sharing.antt =====
-- src/bindings/py_sync.c: acquire and release of a read-write lock object that is open, and its context
-- managers. The state is the calls made of the functions of posixipc_rwlock.c and posixipc_time.c.
pub mod Laws
use posixipc.Prelude.{
  ℕ, Bool, true, false, not, ◌&&◌, ◌||◌, Option, none, some, List, is_null, ◌==◌, ◌!=◌,
  if◌then◌else◌,
}
use posixipc.Codes.{success, etimedout, ebusy, eperm}
use posixipc.Os.{Os, Trace}
use posixipc.Calls.{Log, Reply, Calls}
use posixipc.Time.{Seconds, Deadline, deadline_from_seconds}
use posixipc.Rwlock.{
  rwlock_clock, rwlock_rdlock, rwlock_wrlock, rwlock_tryrdlock, rwlock_trywrlock, rwlock_unlock,
  rwlock_rdlock_until, rwlock_wrlock_until,
}
use posixipc.Rwlock
use posixipc.Bindings.Errors.{Raised, Outcome, returned, raised, posixipc_err}
use posixipc.Bindings.Run.{Run, give, plain, ◌>>=◌, ◌>>◌}
use posixipc.Bindings.Acquire.{Opts}
use posixipc.Bindings.Wait.{lift, blocking_wait}

abbrev pub State : Type 0
State = Log Rwlock.Call × Trace

pub rwlock_result : ℕ → Outcome Bool
rwlock_result rc =
    if rc == success
    then returned true
    else if rc == etimedout || rc == ebusy
    then returned false
    else raised (posixipc_err rc)

-- `lock` is the pointer of the object, and `have_clocklock` is `posixipc_have_rwlock_clocklock()`.
module _ (os : Os) (reply : Reply Rwlock.Call) (have_clocklock : Bool) (lock : Option ℕ)
    (signals : State → Bool × State) where
  abbrev pub on_rwlock : (Reply Rwlock.Call → Option ℕ → Calls Rwlock.Call ℕ) → State → ℕ × State
  on_rwlock f (log, tr) = let (rc, log') = f reply lock log in (rc, (log', tr))

  -- `writer` chooses the function
  abbrev pub on_mode :
      Bool
      → (Reply Rwlock.Call → Option ℕ → Calls Rwlock.Call ℕ)
      → (Reply Rwlock.Call → Option ℕ → Calls Rwlock.Call ℕ)
      → State
      → ℕ × State
  on_mode true write read = on_rwlock write
  on_mode false write read = on_rwlock read

  -- `wr_until_cb` and `rd_until_cb`
  abbrev pub until_cb : Bool → Deadline → State → ℕ × State
  until_cb writer slice =
      on_mode writer (λ r p. rwlock_wrlock_until r have_clocklock p (some slice))
        (λ r p. rwlock_rdlock_until r have_clocklock p (some slice))

  pub wait_until : ℕ → Bool → Bool → Option Deadline → Run State (Outcome Bool)
  unfolding rwlock_result
  wait_until fuel writer interruptible user = do
    rc ←
        blocking_wait os signals (until_cb writer) fuel user interruptible
          (rwlock_clock have_clocklock)
    give (rwlock_result rc)

  pub deadline_set : ℕ → Bool → Bool → ℕ × Option Deadline → Run State (Outcome Bool)
  unfolding wait_until
  deadline_set fuel writer interruptible (rc, none) = give (raised (posixipc_err rc))
  deadline_set fuel writer interruptible (rc, some user) =
      wait_until fuel writer interruptible (some user)

  -- the lock is held elsewhere; with the timeout
  pub wait_for : ℕ → Bool → Bool → Option Seconds → Run State (Outcome Bool)
  unfolding deadline_set wait_until rwlock_result
  wait_for fuel writer interruptible (some t) =
      plain (lift (deadline_from_seconds os (rwlock_clock have_clocklock) t true))
      >>= deadline_set fuel writer interruptible
  wait_for fuel writer interruptible none =
      if not interruptible
      then (plain (on_mode writer rwlock_wrlock rwlock_rdlock) >>= λ rc. give (rwlock_result rc))
      else wait_until fuel writer interruptible none

  pub rwlock_acquire_mode : ℕ → Opts → Bool → Run State (Outcome Bool)
  unfolding wait_for rwlock_result
  rwlock_acquire_mode fuel opts writer = do
    rc ← plain (on_mode writer rwlock_trywrlock rwlock_tryrdlock)
    if rc != ebusy
        then give (rwlock_result rc)
        else if not opts.blocking || (not (is_null opts.timeout) && opts.zero_timeout)
        then give (returned false)
        else wait_for fuel writer opts.interruptible opts.timeout

  -- True stands for None.
  pub rwlock_release : State → Outcome Bool × State
  rwlock_release s =
      let (rc, s') = on_rwlock rwlock_unlock s in
      (
        if rc == eperm
            then raised (some Raised.runtime_error)
            else if rc != success
            then raised (posixipc_err rc)
            else returned true,
        s',
      )
