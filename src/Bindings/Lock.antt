-- ===== src/Bindings/Lock.antt =====
-- src/bindings/py_mutex.c: acquire, release, the context manager and close of a mutex object, as one
-- thread calls them. The state is the object and the calls it made of the functions of
-- posixipc_mutex.c and posixipc_time.c.
pub mod Laws
pub mod Taking
pub mod Keeping
use Prim.Native.Nat.{bit_and, bit_or}
use posixipc.Prelude.{
  ℕ, Bool, true, false, not, ◌&&◌, ◌||◌, Option, none, some, List, [], ◌∷◌, is_null, ◌==◌, ◌!=◌,
  if◌then◌else◌,
}
use posixipc.Codes.{success, etimedout, ebusy, edeadlk, eperm, eownerdead, enotrecoverable}
use posixipc.Os.{Os, Trace}
use posixipc.Calls.{Log, Reply, Calls}
use posixipc.Time.{Seconds, Deadline, deadline_from_seconds}
use posixipc.Mutex.{
  mutex_lock, mutex_trylock, mutex_unlock, mutex_consistent, mutex_destroy, mutex_lock_until,
}
use posixipc.Mutex
use posixipc.Bindings.Errors.{Raised, Outcome, returned, raised, posixipc_err}
use posixipc.Bindings.Run.{Run, give, plain, ◌>>=◌, ◌>>◌}
use posixipc.Bindings.Acquire.{Value, Key, Opts, Partial, default, read_keys, read_timeout}
use posixipc.Bindings.Wait.{lift, mutex_clock, blocking_wait}

-- `PosixIPCMutexObject`, with the calls made of its mutex
pub record MutexObject : Type 0 where
  pub lock : Option ℕ
  pub region : Option ℕ
  pub flags : ℕ
  pub locked : Bool
  pub mutexes : Log Mutex.Call

abbrev pub State : Type 0
State = MutexObject × Trace

abbrev pub flag_closed : ℕ
flag_closed = 8

abbrev pub flag_bound : ℕ
flag_bound = 16

abbrev pub flag_owns_storage : ℕ
flag_owns_storage = 4

pub mutex_check_open : MutexObject → Option Raised
mutex_check_open m =
    if bit_and m.flags flag_closed != 0
    then some Raised.closed_error
    else if bit_and m.flags flag_bound == 0 || is_null m.lock
    then some Raised.unbound
    else none

-- behind the loop of `mutex_acquire`
read_open : Option Raised → Outcome Partial → Outcome Opts
read_open checked (raised e) = raised e
read_open (some e) (returned p) = raised (some e)
read_open none (returned p) = read_timeout p p.timeout_obj

-- The arguments of `mutex_acquire` by position and by keyword; the object is looked at before the
-- timeout.
pub acquire_opts : Option Raised → List Value → List (Key × Value) → Outcome Opts
unfolding read_open
acquire_opts checked [] keys = read_open checked (read_keys false keys default)
acquire_opts checked (v ∷ []) keys =
    read_open checked (read_keys true keys (record default { timeout_obj = some v }))
acquire_opts checked (v ∷ w ∷ more) keys = raised (some Raised.type_error)

-- what `posixipc_mutex_after_lock` returns of a lock that failed
unfoldable pub refused : ℕ → Outcome Bool
refused rc =
    if rc == enotrecoverable
    then raised (some Raised.not_recoverable)
    else if rc == etimedout || rc == ebusy
    then returned false
    else if rc == edeadlk
    then raised (some Raised.runtime_error)
    else raised (posixipc_err rc)

-- `have_clocklock` is `posixipc_have_mutex_clocklock()`; `on_owner_died` is the callback of the
-- object, `none` for NULL, and whether it returns; `signals` is `PyErr_CheckSignals() < 0`.
module _ (os : Os) (reply : MutexObject → Reply Mutex.Call) (have_clocklock : Bool)
    (on_owner_died : Option (State → Bool × State)) (signals : State → Bool × State) where
  -- a function of posixipc_mutex.c
  abbrev pub on_mutex : (Reply Mutex.Call → Option ℕ → Calls Mutex.Call ℕ) → State → ℕ × State
  on_mutex f (m, tr) =
      let (rc, log) = f (reply m) m.lock m.mutexes in (rc, (record m { mutexes = log }, tr))

  abbrev pub set_locked : Bool → State → Bool × State
  set_locked b (m, tr) = (b, (record m { locked = b }, tr))

  -- the lock is given back, and the call fails
  abbrev pub give_back : Option Raised → Run State (Outcome Bool)
  give_back e = do plain (on_mutex mutex_unlock); plain (set_locked false); give (raised e)

  -- behind the callback
  pub after_callback : Bool → Run State (Outcome Bool)
  after_callback false = give_back (some Raised.pending)
  after_callback true = do
    rc ← plain (on_mutex mutex_consistent)
    if rc != success then give_back (posixipc_err rc) else give (returned true)

  pub owner_died : Option (State → Bool × State) → Run State (Outcome Bool)
  unfolding after_callback
  owner_died none = give_back (some Raised.type_error)
  owner_died (some f) = plain f >>= after_callback

  pub mutex_after_lock : ℕ → Run State (Outcome Bool)
  unfolding owner_died refused
  mutex_after_lock rc =
      if rc == success
      then (do plain (set_locked true); give (returned true))
      else if rc == eownerdead
      then (do plain (set_locked true); owner_died on_owner_died)
      else give (refused rc)

  -- `mutex_lock_until_cb`
  pub mutex_lock_until_cb : Deadline → State → ℕ × State
  mutex_lock_until_cb slice = on_mutex (λ r m. mutex_lock_until r have_clocklock m (some slice))

  pub wait_until : ℕ → Bool → Option Deadline → Run State (Outcome Bool)
  unfolding mutex_lock_until_cb mutex_after_lock
  wait_until fuel interruptible user = do
    rc ←
        blocking_wait os signals mutex_lock_until_cb fuel user interruptible
          (mutex_clock have_clocklock)
    mutex_after_lock rc

  pub deadline_set : ℕ → Bool → ℕ × Option Deadline → Run State (Outcome Bool)
  unfolding wait_until
  deadline_set fuel interruptible (rc, none) = give (raised (posixipc_err rc))
  deadline_set fuel interruptible (rc, some user) = wait_until fuel interruptible (some user)

  -- the lock is held elsewhere; with the timeout
  pub wait_for : ℕ → Bool → Option Seconds → Run State (Outcome Bool)
  unfolding deadline_set wait_until mutex_after_lock
  wait_for fuel interruptible (some t) =
      plain (lift (deadline_from_seconds os (mutex_clock have_clocklock) t true))
      >>= deadline_set fuel interruptible
  wait_for fuel interruptible none =
      if not interruptible
      then (plain (on_mutex mutex_lock) >>= mutex_after_lock)
      else wait_until fuel interruptible none

  -- behind the arguments
  pub try_first : ℕ → Opts → Run State (Outcome Bool)
  unfolding wait_for mutex_after_lock
  try_first fuel opts = do
    rc ← plain (on_mutex mutex_trylock)
    if rc != ebusy
        then mutex_after_lock rc
        else if not opts.blocking || (not (is_null opts.timeout) && opts.zero_timeout)
        then give (returned false)
        else wait_for fuel opts.interruptible opts.timeout

  pub with_opts : ℕ → Outcome Opts → Run State (Outcome Bool)
  unfolding try_first
  with_opts fuel (raised e) = give (raised e)
  with_opts fuel (returned opts) = try_first fuel opts

  pub mutex_acquire : ℕ → List Value → List (Key × Value) → Run State (Outcome Bool)
  unfolding with_opts
  mutex_acquire fuel args keys (m, tr) =
      with_opts fuel (acquire_opts (mutex_check_open m) args keys) (m, tr)

  -- behind `pthread_mutex_unlock` in `mutex_release`
  pub released : ℕ → Run State (Outcome Bool)
  released rc =
      if rc == eperm
      then give (raised (some Raised.runtime_error))
      else if rc != success
      then give (raised (posixipc_err rc))
      else do plain (set_locked false); give (returned true)

  -- with what `mutex_check_open` says
  pub release_open : Option Raised → Run State (Outcome Bool)
  unfolding released
  release_open (some e) = give (raised (some e))
  release_open none = plain (on_mutex mutex_unlock) >>= released

  -- True stands for None.
  pub mutex_release : Run State (Outcome Bool)
  unfolding release_open
  mutex_release (m, tr) = release_open (mutex_check_open m) (m, tr)

  -- behind the acquire of `mutex_enter`
  pub entered : Outcome Bool → Run State (Outcome Bool)
  entered (returned false) = give (raised (some Raised.runtime_error))
  entered (returned true) = give (returned true)
  entered (raised e) = give (raised e)

  pub mutex_enter : ℕ → Run State (Outcome Bool)
  unfolding mutex_acquire entered
  mutex_enter fuel = mutex_acquire fuel [] [] >>= entered

  pub mutex_exit : Run State (Outcome Bool)
  unfolding mutex_release
  mutex_exit (m, tr) = if m.locked then mutex_release (m, tr) else give (returned true) (m, tr)

  -- the storage of an object that owns it
  pub destroy_storage : State → State
  destroy_storage (m, tr) =
      if m.locked
      then (let (rc, s) = on_mutex mutex_unlock (m, tr) in
          (on_mutex mutex_destroy (set_locked false s).1).1)
      else (on_mutex mutex_destroy (m, tr)).1

  -- without its pointers
  pub closed_of : State → State
  closed_of (m, tr) =
      (record m { region = none; lock = none; flags = bit_or m.flags flag_closed }, tr)

  -- The region that is unpinned is an object of its own.
  pub mutex_close : State → State
  unfolding destroy_storage closed_of
  mutex_close (m, tr) =
      if bit_and m.flags flag_closed != 0
      then (m, tr)
      else closed_of (
          if bit_and m.flags flag_owns_storage != 0 && not (is_null m.lock)
          then destroy_storage (m, tr)
          else (m, tr))
