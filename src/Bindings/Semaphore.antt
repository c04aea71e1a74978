-- ===== src/Bindings/Semaphore.antt =====
-- src/bindings/py_sync.c: acquire, release, the context manager and close of a semaphore object, as
-- one thread calls them. The state is the object with the calls it made, and those of the clocks.
pub mod Laws
pub mod Units
use Prim.Native.Nat.{bit_and, bit_or}
use posixipc.Prelude.{
  ℕ, zero, suc, Bool, true, false, not, ◌&&◌, ◌||◌, Option, none, some, List, [], is_null, ltb,
  ◌==◌, ◌!=◌, if◌then◌else◌,
}
use posixipc.Codes.{success, etimedout, ebusy, eagain, error_interrupted}
use posixipc.Os.{Os, Trace}
use posixipc.Calls.{Log, Reply, Calls}
use posixipc.Time.{Seconds, Deadline, deadline_from_seconds}
use posixipc.Sem.{sem_clock, sem_wait, sem_trywait, sem_post, sem_destroy, sem_wait_until}
use posixipc.Sem
use posixipc.Bindings.Errors.{Raised, Outcome, returned, raised, posixipc_err}
use posixipc.Bindings.Run.{Run, give, plain, ◌>>=◌, ◌>>◌}
use posixipc.Bindings.Acquire.{Value, Key, Opts, posixipc_parse_acquire}
use posixipc.Bindings.Wait.{lift, blocking_wait}
use posixipc.Bindings.Exchange.{at_once}
use posixipc.Bindings.Region.{Region, posixipc_shmobj_unpin}

-- `PosixIPCSemaphoreObject`
pub record SemaphoreObject : Type 0 where
  pub sem : Option ℕ
  pub region : Option ℕ
  pub flags : ℕ
  pub sems : Log Sem.Call

abbrev pub State : Type 0
State = SemaphoreObject × Trace

abbrev pub flag_owns_storage : ℕ
flag_owns_storage = 4

abbrev pub flag_closed : ℕ
flag_closed = 8

abbrev pub flag_bound : ℕ
flag_bound = 16

pub sem_check_open : SemaphoreObject → Option Raised
sem_check_open o =
    if bit_and o.flags flag_closed != 0
    then some Raised.closed_error
    else if bit_and o.flags flag_bound == 0 || is_null o.sem
    then some Raised.unbound
    else none

-- behind the wait of `sem_acquire`
pub sem_waited : ℕ → Outcome Bool
sem_waited rc =
    if rc == success
    then returned true
    else if rc == etimedout || rc == eagain
    then returned false
    else if rc == error_interrupted
    then raised (some Raised.pending)
    else raised (posixipc_err rc)

-- behind a call that does not time out; True stands for None in a release
pub sem_called : ℕ → Outcome Bool
sem_called rc = if rc == success then returned true else raised (posixipc_err rc)

-- the argument of `release`: a C int, or none that is one
pub data Times : Type 0 where
  unreadable below_one : Times
  given : ℕ → Times

-- `have_clockwait` is `posixipc_have_sem_clockwait()`.
module _ (os : Os) (reply : SemaphoreObject → Reply Sem.Call) (have_clockwait : Bool)
    (signals : State → Bool × State) where
  -- a function of posixipc_sem.c
  abbrev pub on_sem : (Reply Sem.Call → Option ℕ → Calls Sem.Call ℕ) → State → ℕ × State
  on_sem f (o, tr) = let (rc, log) = f (reply o) o.sem o.sems in (rc, (record o { sems = log }, tr))

  abbrev pub sem_until_cb : Deadline → State → ℕ × State
  sem_until_cb slice = on_sem (λ r s. sem_wait_until r have_clockwait s (some slice))

  pub wait_until : ℕ → Bool → Option Deadline → Run State (Outcome Bool)
  unfolding sem_waited
  wait_until fuel interruptible user = do
    rc ← blocking_wait os signals sem_until_cb fuel user interruptible (sem_clock have_clockwait)
    give (sem_waited rc)

  pub deadline_set : ℕ → Bool → ℕ × Option Deadline → Run State (Outcome Bool)
  unfolding wait_until
  deadline_set fuel interruptible (rc, none) = give (raised (posixipc_err rc))
  deadline_set fuel interruptible (rc, some user) = wait_until fuel interruptible (some user)

  -- no unit is free; with the timeout
  pub wait_for : ℕ → Bool → Option Seconds → Run State (Outcome Bool)
  unfolding deadline_set wait_until sem_called
  wait_for fuel interruptible (some t) =
      plain (lift (deadline_from_seconds os (sem_clock have_clockwait) t true))
      >>= deadline_set fuel interruptible
  wait_for fuel interruptible none =
      if not interruptible
      then (plain (on_sem sem_wait) >>= λ rc. give (sem_called rc))
      else wait_until fuel interruptible none

  -- behind the arguments
  pub try_first : ℕ → Opts → Run State (Outcome Bool)
  unfolding wait_for sem_called
  try_first fuel opts = do
    rc ← plain (on_sem sem_trywait)
    if rc != eagain && rc != ebusy
        then give (sem_called rc)
        else if at_once opts
        then give (returned false)
        else wait_for fuel opts.interruptible opts.timeout

  pub with_opts : ℕ → Option Raised → Outcome Opts → Run State (Outcome Bool)
  unfolding try_first
  with_opts fuel (some e) opts = give (raised (some e))
  with_opts fuel none (raised e) = give (raised e)
  with_opts fuel none (returned opts) = try_first fuel opts

  pub sem_acquire : ℕ → List Value → List (Key × Value) → Run State (Outcome Bool)
  unfolding sem_check_open with_opts
  sem_acquire fuel args keys (o, tr) =
      with_opts fuel (sem_check_open o) (posixipc_parse_acquire args keys) (o, tr)

  -- the loop of `sem_release`
  pub post_times : ℕ → State → Outcome Bool × State
  post_times zero s = (returned true, s)
  post_times (suc n) s =
      let (rc, s') = on_sem sem_post s in
      let rest = post_times n s' in if rc != success then (raised (posixipc_err rc), s') else rest

  pub release_times : Option Raised → Times → State → Outcome Bool × State
  unfolding post_times
  release_times (some e) n s = (raised (some e), s)
  release_times none Times.unreadable s = (raised (some Raised.pending), s)
  release_times none Times.below_one s = (raised (some Raised.value_error), s)
  release_times none (Times.given n) s = post_times n s

  pub sem_release : Times → State → Outcome Bool × State
  unfolding sem_check_open release_times
  sem_release n (o, tr) = release_times (sem_check_open o) n (o, tr)

  -- behind the acquire of `sem_enter`
  pub sem_entered : Outcome Bool → Run State (Outcome Bool)
  sem_entered (returned false) = give (raised (some Raised.runtime_error))
  sem_entered (returned true) = give (returned true)
  sem_entered (raised e) = give (raised e)

  pub sem_enter : ℕ → Run State (Outcome Bool)
  unfolding sem_acquire sem_entered
  sem_enter fuel = sem_acquire fuel [] [] >>= sem_entered

  exit_open : Option Raised → State → Outcome Bool × State
  unfolding sem_called
  exit_open (some e) s = (raised (some e), s)
  exit_open none s = let (rc, s') = on_sem sem_post s in (sem_called rc, s')

  pub sem_exit : State → Outcome Bool × State
  unfolding sem_check_open exit_open
  sem_exit (o, tr) = exit_open (sem_check_open o) (o, tr)

  -- `r` is the object of the region, which is pinned by a semaphore that has one.
  pub semobj_close : State → Region → State × Region
  semobj_close (o, tr) r = if bit_and o.flags flag_closed != 0 then ((o, tr), r) else (
    let (o', tr') =
          (if bit_and o.flags flag_owns_storage != 0 && not (is_null o.sem)
            then (on_sem sem_destroy (o, tr)).1
            else (o, tr)) in
        (record o' { sem = none; region = none; flags = bit_or o'.flags flag_closed }, tr'),
    if is_null o.region then r else posixipc_shmobj_unpin r,
  )
