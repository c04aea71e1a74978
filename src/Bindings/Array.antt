-- ===== src/Bindings/Array.antt =====
-- src/bindings/py_array.c: acquire, release and close of an array of mutexes, as one thread calls them. The state is the array, with the calls it made of its mutexes and the flag of the
-- item that is used, and those of the clocks.
pub mod Laws
pub mod Wrapping
pub mod Holding
pub mod Item
use Prim.Native.Nat.{bit_and, bit_or}
use posixipc.Prelude.{
  ℕ, zero, suc, ◌%◌, Bool, true, false, not, ◌&&◌, ◌||◌, Option, none, some, List, [], ◌∷◌, is_null,
  leb, ◌==◌, ◌!=◌, if◌then◌else◌,
}
use posixipc.Codes.{success, ebusy, eperm, eownerdead}
use posixipc.Word.{u32_mod}
use posixipc.Os.{Os, Trace}
use posixipc.Calls.{Log, Reply, Calls}
use posixipc.Time.{Seconds, Deadline, deadline_from_seconds}
use posixipc.Mutex.{mutex_lock, mutex_trylock, mutex_unlock, mutex_consistent, mutex_lock_until}
use posixipc.Mutex
use posixipc.Bindings.Errors.{Raised, Outcome, returned, raised, posixipc_err}
use posixipc.Bindings.Run.{Run, give, plain, ◌>>=◌, ◌>>◌}
use posixipc.Bindings.Acquire.{Value, Key, Opts, posixipc_parse_acquire}
use posixipc.Bindings.Wait.{lift, mutex_clock, blocking_wait}
use posixipc.Bindings.Exchange.{at_once}
use posixipc.Bindings.Lock.{refused}
use posixipc.Bindings.Region.{Region, posixipc_shmobj_unpin}

-- `PosixIPCMutexArrayObject`; `locked` is the flag of a `PosixIPCMutexArrayItemObject` of it.
pub record ArrayObject : Type 0 where
  pub locks : Option (List ℕ)
  pub region : Option ℕ
  pub flags : ℕ
  pub count : ℕ
  pub locked : Bool
  pub mutexes : Log Mutex.Call

abbrev pub State : Type 0
State = ArrayObject × Trace

abbrev pub flag_closed : ℕ
flag_closed = 8

abbrev pub flag_bound : ℕ
flag_bound = 16

pub array_is_closed : ArrayObject → Bool
array_is_closed a = bit_and a.flags flag_closed != 0

pub array_check_open : ArrayObject → Option Raised
array_check_open a =
    if bit_and a.flags flag_closed != 0
    then some Raised.closed_error
    else if bit_and a.flags flag_bound == 0 || is_null a.locks || is_null a.region
    then some Raised.unbound
    else none

-- `a->locks[index]`; a NULL pointer stands for one behind the end
nth : List ℕ → ℕ → Option ℕ
nth [] i = none
nth (p ∷ ps) zero = some p
nth (p ∷ ps) (suc i) = nth ps i

unfoldable pub lock_at : ArrayObject → ℕ → Option ℕ
unfolding nth
lock_at a i = elim (a.locks) [ none ↦ none | some ps ↦ nth ps i ]

-- what `PyNumber_AsSsize_t` gives
pub data Index : Type 0 where
  unreadable negative : Index
  given : ℕ → Index

pub array_parse_index : Index → Outcome ℕ
array_parse_index Index.unreadable = raised (some Raised.pending)
array_parse_index Index.negative = raised (some Raised.index_error)
array_parse_index (Index.given v) = returned (v % u32_mod)

-- the tests of the array and of the index
pub index_checked : ArrayObject → ℕ → Option Raised
unfolding array_check_open
index_checked a index = elim (array_check_open a) [
  | some e ↦ some e
  | none ↦ if leb a.count index then some Raised.index_error else none
]

-- `have_clocklock` is `posixipc_have_mutex_clocklock()`; `on_owner_died` is the callback with the
-- making of its argument, `none` for NULL, and whether both succeed; `item` says that the call is one
-- of an item.
module _ (os : Os) (reply : ArrayObject → Reply Mutex.Call) (have_clocklock : Bool)
    (on_owner_died : Option (State → Bool × State)) (signals : State → Bool × State)
    (item : Bool) where
  -- a function of posixipc_mutex.c
  abbrev pub on_lock :
      Option ℕ → (Reply Mutex.Call → Option ℕ → Calls Mutex.Call ℕ) → State → ℕ × State
  on_lock lock f (a, tr) =
      let (rc, log) = f (reply a) lock a.mutexes in (rc, (record a { mutexes = log }, tr))

  -- the flag, where there is an item
  abbrev pub mark : Bool → State → Bool × State
  mark b (a, tr) = (b, (record a { locked = if item then b else a.locked }, tr))

  abbrev pub give_back : Option ℕ → Option Raised → Run State (Outcome Bool)
  give_back lock e = do plain (on_lock lock mutex_unlock); give (raised e)

  abbrev pub taken : Run State (Outcome Bool)
  taken = do plain (mark true); give (returned true)

  -- behind the callback
  pub after_callback : Option ℕ → Bool → Run State (Outcome Bool)
  after_callback lock false = give_back lock (some Raised.pending)
  after_callback lock true = do
    rc ← plain (on_lock lock mutex_consistent)
    if rc != success then give_back lock (posixipc_err rc) else taken

  pub owner_died : Option ℕ → Option (State → Bool × State) → Run State (Outcome Bool)
  unfolding after_callback
  owner_died lock none = give_back lock (some Raised.type_error)
  owner_died lock (some f) = plain f >>= after_callback lock

  pub array_after_lock : Option ℕ → ℕ → Run State (Outcome Bool)
  unfolding owner_died
  array_after_lock lock rc =
      if rc == success
      then taken
      else if rc == eownerdead
      then owner_died lock on_owner_died
      else give (refused rc)

  pub array_lock_until_cb : Option ℕ → Deadline → State → ℕ × State
  array_lock_until_cb lock slice =
      on_lock lock (λ r m. mutex_lock_until r have_clocklock m (some slice))

  pub wait_until : ℕ → Option ℕ → Bool → Option Deadline → Run State (Outcome Bool)
  unfolding array_lock_until_cb array_after_lock
  wait_until fuel lock interruptible user = do
    rc ←
        blocking_wait os signals (array_lock_until_cb lock) fuel user interruptible
          (mutex_clock have_clocklock)
    array_after_lock lock rc

  pub deadline_set : ℕ → Option ℕ → Bool → ℕ × Option Deadline → Run State (Outcome Bool)
  unfolding wait_until
  deadline_set fuel lock interruptible (rc, none) = give (raised (posixipc_err rc))
  deadline_set fuel lock interruptible (rc, some user) =
      wait_until fuel lock interruptible (some user)

  -- the lock is held elsewhere; with the timeout
  pub wait_for : ℕ → Option ℕ → Bool → Option Seconds → Run State (Outcome Bool)
  unfolding deadline_set wait_until array_after_lock
  wait_for fuel lock interruptible (some t) =
      plain (lift (deadline_from_seconds os (mutex_clock have_clocklock) t true))
      >>= deadline_set fuel lock interruptible
  wait_for fuel lock interruptible none =
      if not interruptible
      then (plain (on_lock lock mutex_lock) >>= array_after_lock lock)
      else wait_until fuel lock interruptible none

  -- behind the tests
  pub try_first : ℕ → Option ℕ → Opts → Run State (Outcome Bool)
  unfolding wait_for array_after_lock
  try_first fuel lock opts = do
    rc ← plain (on_lock lock mutex_trylock)
    if rc != ebusy
        then array_after_lock lock rc
        else if at_once opts
        then give (returned false)
        else wait_for fuel lock opts.interruptible opts.timeout

  pub with_index : ℕ → Option ℕ → Opts → Option Raised → Run State (Outcome Bool)
  unfolding try_first
  with_index fuel lock opts (some e) = give (raised (some e))
  with_index fuel lock opts none = try_first fuel lock opts

  pub array_lock_index : ℕ → ℕ → Opts → Run State (Outcome Bool)
  unfolding index_checked lock_at with_index
  array_lock_index fuel index opts (a, tr) =
      with_index fuel (lock_at a index) opts (index_checked a index) (a, tr)

  pub parsed : ℕ → Outcome ℕ → Outcome Opts → Run State (Outcome Bool)
  unfolding array_lock_index
  parsed fuel (raised e) opts = give (raised e)
  parsed fuel (returned index) (raised e) = give (raised e)
  parsed fuel (returned index) (returned opts) = array_lock_index fuel index opts

  -- behind `posixipc_mutex_unlock`; True stands for None
  pub unlocked : ℕ → Outcome Bool
  unlocked rc =
      if rc == eperm
      then raised (some Raised.runtime_error)
      else if rc != success
      then raised (posixipc_err rc)
      else returned true

  pub release_checked : Option ℕ → Option Raised → State → Outcome Bool × State
  unfolding unlocked
  release_checked lock (some e) s = (raised (some e), s)
  release_checked lock none s = let (rc, s') = on_lock lock mutex_unlock s in (unlocked rc, s')

  pub array_release_index : ℕ → State → Outcome Bool × State
  unfolding index_checked lock_at release_checked
  array_release_index index (a, tr) =
      release_checked (lock_at a index) (index_checked a index) (a, tr)

  pub release_parsed : Outcome ℕ → State → Outcome Bool × State
  unfolding array_release_index
  release_parsed (raised e) s = (raised e, s)
  release_parsed (returned index) s = array_release_index index s

-- the methods of the array, which are no calls of an item
module _ (os : Os) (reply : ArrayObject → Reply Mutex.Call) (have_clocklock : Bool)
    (on_owner_died : Option (State → Bool × State)) (signals : State → Bool × State) where
  -- `MutexArray.acquire`, its first argument apart, of which `none` says that it is missing
  pub array_acquire : ℕ → Option Index → List Value → List (Key × Value) → Run State (Outcome Bool)
  unfolding array_parse_index parsed
  array_acquire fuel none args keys = give (raised (some Raised.type_error))
  array_acquire fuel (some v) args keys =
      parsed os reply have_clocklock on_owner_died signals false fuel (array_parse_index v)
        (posixipc_parse_acquire args keys)

  pub array_release : Index → State → Outcome Bool × State
  unfolding array_parse_index release_parsed
  array_release v s =
      release_parsed os reply have_clocklock on_owner_died signals false (array_parse_index v) s

-- `r` is the object of the region, which is pinned by an array that has one.
pub array_close : ArrayObject → Region → ArrayObject × Region
unfolding array_is_closed
array_close a r = if array_is_closed a then (a, r) else (
  record a { region = none; locks = none; flags = bit_or a.flags flag_closed },
  if is_null a.region then r else posixipc_shmobj_unpin r,
)
