-- ===== src/Bindings/FutexObject.antt =====
-- src/bindings/py_linux.c: the futex object, as one thread calls it. The state is the object, the
-- calls that it made of the system, and those of the clocks; what other threads do is in the replies.
pub mod Interrupted
use Prim.Native.Nat.{bit_and, bit_or}
use mathlib.Core.Option
use posixipc.Prelude.{
  ℕ, Bool, true, false, not, ◌&&◌, ◌||◌, Option, none, some, List, [], ◌∷◌, is_null, ltb, ◌==◌,
  ◌!=◌, if◌then◌else◌,
}
use posixipc.Codes.{success, eintr, etimedout, error_interrupted}
use posixipc.Word.{u32_max}
use posixipc.Os.{Os, Trace}
use posixipc.Calls.{Log, Reply, clock_monotonic}
use posixipc.Time.{Seconds, Deadline, deadline_from_seconds}
use posixipc.Futex.{futex_load, futex_store, futex_wait, futex_wake}
use posixipc.Futex
use posixipc.Bindings.Errors.{Raised, Outcome, returned, raised, posixipc_err}
use posixipc.Bindings.Run.{Run, give, plain, ◌>>=◌, ◌>>◌}
use posixipc.Bindings.Acquire.{Value, Key, Opts, posixipc_parse_acquire}
use posixipc.Bindings.Wait.{lift, blocking_wait}
use posixipc.Bindings.Exchange.{at_once}

-- `PosixIPCFutexObject`, whose word stands at `address`
pub record FutexObject : Type 0 where
  pub address : ℕ
  pub word : ℕ
  pub flags : ℕ
  pub futexes : Log Futex.Call

abbrev pub State : Type 0
State = FutexObject × Trace

abbrev pub flag_closed : ℕ
flag_closed = 8

abbrev pub flag_bound : ℕ
flag_bound = 16

abbrev pub int_max : ℕ
int_max = 2147483647

-- `futex_new`, at the address where the object is put
pub futex_new : ℕ → FutexObject
futex_new address = record { address = address; word = 0; flags = flag_bound; futexes = [] }

pub futex_is_closed : FutexObject → Bool
futex_is_closed o = bit_and o.flags flag_closed != 0

-- An argument of `PyLong_AsUnsignedLong` or `PyLong_AsLong`: `none` where that sets an exception, and
-- for the latter `below` for a number below zero.
pub data Count : Type 0 where
  none_given unreadable below : Count
  given : ℕ → Count

pub futex_close : FutexObject → FutexObject
futex_close o = record o { flags = bit_or o.flags flag_closed }

pub futex_get_value : FutexObject → Outcome ℕ
unfolding futex_is_closed
futex_get_value o =
    if futex_is_closed o then raised (some Raised.closed_error) else returned (futex_load o.word)

-- `none_given` stands for a deletion. True stands for 0.
store_value : FutexObject → Count → Outcome Bool × FutexObject
store_value o Count.none_given = (raised (some Raised.type_error), o)
store_value o Count.unreadable = (raised (some Raised.pending), o)
store_value o Count.below = (raised (some Raised.pending), o)
store_value o (Count.given n) =
    if ltb u32_max n
    then (raised (some Raised.overflow_error), o)
    else (returned true, record o { word = futex_store o.word n })

pub futex_set_value : FutexObject → Count → Outcome Bool × FutexObject
unfolding futex_is_closed store_value
futex_set_value o v =
    if futex_is_closed o then (raised (some Raised.closed_error), o) else store_value o v

module _ (os : Os) (reply : FutexObject → Reply Futex.Call) (signals : State → Bool × State) where
  -- The fuel is that of `futex_wait` of posixipc_futex.c, which with a deadline takes one round.
  pub futex_wait_cb : ℕ → Deadline → State → ℕ × State
  futex_wait_cb expected slice (o, tr) =
      let (r, log) =
        Futex.futex_wait (reply o) 1 (some o.address) expected (some slice) false o.futexes in
      let rc = Option.get_or r etimedout in
      (if rc == eintr then etimedout else rc, (record o { futexes = log }, tr))

  -- behind the wait
  pub wait_ended : ℕ → Outcome Bool
  wait_ended rc =
      if rc == etimedout
      then returned false
      else if rc != success
      then raised (if rc != error_interrupted then posixipc_err rc else some Raised.pending)
      else returned true

  pub wait_until : ℕ → ℕ → Bool → Option Deadline → Run State (Outcome Bool)
  unfolding futex_wait_cb wait_ended
  wait_until fuel expected interruptible user = do
    rc ← blocking_wait os signals (futex_wait_cb expected) fuel user interruptible clock_monotonic
    give (wait_ended rc)

  pub deadline_set : ℕ → ℕ → Bool → ℕ × Option Deadline → Run State (Outcome Bool)
  unfolding wait_until
  deadline_set fuel expected interruptible (rc, none) = give (raised (posixipc_err rc))
  deadline_set fuel expected interruptible (rc, some user) =
      wait_until fuel expected interruptible (some user)

  -- a wait that may block, with the timeout
  pub wait_for : ℕ → ℕ → Bool → Option Seconds → Run State (Outcome Bool)
  unfolding wait_until deadline_set
  wait_for fuel expected interruptible none = wait_until fuel expected interruptible none
  wait_for fuel expected interruptible (some t) =
      plain (lift (deadline_from_seconds os clock_monotonic t true))
      >>= deadline_set fuel expected interruptible

  -- with the options parsed
  pub wait_opts : ℕ → ℕ → Outcome Opts → Run State (Outcome Bool)
  unfolding wait_for
  wait_opts fuel expected (raised e) (o, tr) = give (raised e) (o, tr)
  wait_opts fuel expected (returned opts) (o, tr) =
      (if at_once opts
          then give (returned (futex_load o.word != expected))
          else wait_for fuel expected opts.interruptible opts.timeout)
        (o, tr)

  -- with the argument `expected`
  pub wait_expected : ℕ → Count → List Value → List (Key × Value) → Run State (Outcome Bool)
  unfolding wait_opts
  wait_expected fuel Count.none_given args keys = give (raised (some Raised.type_error))
  wait_expected fuel Count.unreadable args keys = give (raised (some Raised.pending))
  wait_expected fuel Count.below args keys = give (raised (some Raised.pending))
  wait_expected fuel (Count.given expected) args keys =
      if ltb u32_max expected
      then give (raised (some Raised.overflow_error))
      else wait_opts fuel expected (posixipc_parse_acquire args keys)

  -- `Futex.wait`, the first argument apart
  pub py_futex_wait : ℕ → Count → List Value → List (Key × Value) → Run State (Outcome Bool)
  unfolding futex_is_closed wait_expected
  py_futex_wait fuel expected args keys (o, tr) =
      (if futex_is_closed o
          then give (raised (some Raised.closed_error))
          else wait_expected fuel expected args keys)
        (o, tr)

  -- `n` is clamped to INT_MAX. True stands for None.
  wake_some : ℕ → State → Outcome Bool × State
  wake_some n (o, tr) =
      let (rc, log) =
        Futex.futex_wake (reply o) (some o.address) false (if ltb int_max n then int_max else n)
          false o.futexes in
      (
        if rc != success then raised (posixipc_err rc) else returned true,
        (record o { futexes = log }, tr),
      )

  wake_count : Count → State → Outcome Bool × State
  unfolding wake_some
  wake_count Count.none_given s = wake_some 1 s
  wake_count Count.unreadable s = (raised (some Raised.pending), s)
  wake_count Count.below s = (raised (some Raised.value_error), s)
  wake_count (Count.given n) s = wake_some n s

  -- `Futex.wake`, with at most one argument
  pub py_futex_wake : Count → State → Outcome Bool × State
  unfolding futex_is_closed wake_count
  py_futex_wake n (o, tr) =
      if futex_is_closed o
      then (raised (some Raised.closed_error), (o, tr))
      else wake_count n (o, tr)
