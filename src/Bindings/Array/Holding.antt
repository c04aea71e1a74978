-- ===== src/Bindings/Array/Holding.antt =====
-- Acquire and release of a mutex of an array of src/bindings/py_array.c: how often it is held.
use posixipc.Prelude.{
  ℕ, suc, ◌≡◌, ◌≢◌, refl, ap, ◌∙◌, arith, Bool, true, false, not, Option, none, some, ◌==◌, ◌!=◌,
  if◌then◌else◌,
}
use posixipc.Codes.{success, ebusy, eownerdead}
use posixipc.Os.{Os, Trace, Ret, Timespec, status_of}
use posixipc.Calls.{Reply}
use posixipc.Time.{Seconds, Deadline, deadline_from_seconds}
use posixipc.Mutex.{mutex_lock, mutex_trylock, mutex_unlock, mutex_consistent, mutex_lock_until}
use posixipc.Mutex
use posixipc.Bindings.Errors.{Raised, returned, posixipc_err}
use posixipc.Bindings.Run.{After, Triple, Triple-bind, Triple-if, give, plain, ◌>>=◌}
use posixipc.Bindings.Acquire.{Opts}
use posixipc.Bindings.Wait.{lift, mutex_clock, blocking_wait}
use posixipc.Bindings.Wait.Counting.{Misses, counting_wait-Triple}
use posixipc.Bindings.Exchange.{at_once}
use posixipc.Bindings.Lock.{refused}
use posixipc.Bindings.Array.{
  ArrayObject, State, on_lock, give_back, taken, after_callback, owner_died, array_after_lock,
  array_lock_until_cb, wait_until, deadline_set, wait_for, try_first, with_index, lock_at,
  index_checked, array_lock_index, unlocked, release_checked, array_release_index,
}
use posixipc.Bindings.Array.Laws.{
  gains, held, holds_at, At, Tried, Acquired, Released, Honest, lock-Gains, trylock-Gains,
  until-Gains, unlock-held, consistent-held, refused-Acquired,
}

gains-Misses :
    (os : Os)
    → ((tr : Trace) (clk : ℕ) → status_of (os.clock_gettime tr clk) ≢ eownerdead)
    → Misses os gains
gains-Misses os clocks = record {
  timeout = λ k. refl;
  signal = λ k. refl;
  clock = λ tr clk e k same.
      let failed : status_of (os.clock_gettime tr clk) ≡ suc e =
        ap (λ (r : Ret Timespec). status_of r) same in
      let ne = clocks tr clk in ground arith;
}

module _ {os : Os} {reply : ArrayObject → Reply Mutex.Call} (have_clocklock : Bool)
    {on_owner_died : Option (State → Bool × State)} {signals : State → Bool × State} (item : Bool)
    (honest : Honest os reply on_owner_died signals) (p k : ℕ) where
  -- held once more
  abbrev Held : State → Type 0
  Held (a, tr) = holds_at p a ≡ suc k

  give_back-Acquired :
      (e : Option Raised)
      → Triple Held
          (give_back os reply have_clocklock on_owner_died signals item (some p) e)
          (Acquired p k)
  unfolding mutex_unlock
  give_back-Acquired e (a, tr) h =
      let given = unlock-held p (reply a) a.mutexes in
      let fine = honest.unlocks a p (omega arith) in ground arith

  after_callback-Acquired :
      (b : Bool)
      → Triple Held
          (after_callback os reply have_clocklock on_owner_died signals item (some p) b)
          (Acquired p k)
  unfolding after_callback
  after_callback-Acquired false s h = give_back-Acquired (some Raised.pending) s h
  after_callback-Acquired true (a, tr) h =
      let r = mutex_consistent (reply a) (some p) a.mutexes in
      Triple-if {P = Held} (Acquired p k) (r.0 != success)
        (give_back os reply have_clocklock on_owner_died signals item (some p) (posixipc_err r.0))
        (taken os reply have_clocklock on_owner_died signals item)
        (λ e. give_back-Acquired (posixipc_err r.0)) (λ e (a', tr') h'. h')
        (record a { mutexes = r.1 }, tr) (consistent-held p (reply a) a.mutexes ∙ h)

  owner_died-Acquired :
      (f : Option (State → Bool × State))
      → on_owner_died ≡ f
      → Triple Held
          (owner_died os reply have_clocklock on_owner_died signals item (some p) f)
          (Acquired p k)
  unfolding owner_died
  owner_died-Acquired none e s h = give_back-Acquired (some Raised.type_error) s h
  owner_died-Acquired (some f) e s h =
      after_callback-Acquired (f s).0 (f s).1 (ap (held p) (honest.callback f s e) ∙ h)

  after_lock-Acquired :
      (rc : ℕ)
      → Triple
          (Tried p k rc)
          (array_after_lock os reply have_clocklock on_owner_died signals item (some p) rc)
          (Acquired p k)
  unfolding array_after_lock
  after_lock-Acquired rc =
      Triple-if {P = Tried p k rc} (Acquired p k) (rc == success)
        (taken os reply have_clocklock on_owner_died signals item) _ (λ e (a, tr) h. ground arith)
        (λ ne.
          Triple-if {P = Tried p k rc} (Acquired p k) (rc == eownerdead)
            (owner_died os reply have_clocklock on_owner_died signals item (some p) on_owner_died)
            (give (refused rc)) (λ e s h. owner_died-Acquired on_owner_died refl s (ground arith))
            (λ e s h. refused-Acquired p k rc s (ground arith)))

  until-Tried :
      (d : Deadline) (s : State)
      → At p k s
      → let (rc, s') =
          array_lock_until_cb os reply have_clocklock on_owner_died signals item (some p) d s in
        Tried p k rc s'
  unfolding array_lock_until_cb
  until-Tried d (a, tr) h =
      let r = mutex_lock_until (reply a) have_clocklock (some p) (some d) a.mutexes in
      until-Gains p (reply a) a.mutexes have_clocklock d ∙ ap (gains r.0) h

  wait_until-Acquired :
      (fuel : ℕ) (interruptible : Bool) (user : Option Deadline)
      → Triple
          (At p k)
          (wait_until os reply have_clocklock on_owner_died signals item fuel
            (some p)
            interruptible
            user)
          (Acquired p k)
  unfolding wait_until
  wait_until-Acquired fuel interruptible user =
      let cb = array_lock_until_cb os reply have_clocklock on_owner_died signals item (some p) in
      let clk = mutex_clock have_clocklock in
      Triple-bind {Q = Tried p k} (Acquired p k)
        (array_after_lock os reply have_clocklock on_owner_died signals item (some p))
        after_lock-Acquired (blocking_wait os signals cb fuel user interruptible clk)
        (counting_wait-Triple (holds_at p) (gains-Misses os honest.clocks) signals
          (λ s. ap (held p) (honest.handlers s)) cb k until-Tried fuel user interruptible clk)

  deadline_set-Acquired :
      (fuel : ℕ) (interruptible : Bool) (r : (ℕ × Option Deadline) × State)
      → At p k r.1
      → After (Acquired p k) (
          deadline_set os reply have_clocklock on_owner_died signals item fuel
            (some p)
            interruptible
            r.0
            r.1)
  unfolding deadline_set
  deadline_set-Acquired fuel interruptible ((rc, none), s) h = h
  deadline_set-Acquired fuel interruptible ((rc, some user), s) h =
      wait_until-Acquired fuel interruptible (some user) s h

  wait_for-Acquired :
      (fuel : ℕ) (interruptible : Bool) (timeout : Option Seconds)
      → Triple
          (At p k)
          (wait_for os reply have_clocklock on_owner_died signals item fuel
            (some p)
            interruptible
            timeout)
          (Acquired p k)
  unfolding wait_for
  wait_for-Acquired fuel interruptible (some t) (a, tr) h =
      deadline_set-Acquired fuel interruptible
        (lift (deadline_from_seconds os (mutex_clock have_clocklock) t true) (a, tr)) h
  wait_for-Acquired fuel interruptible none s h =
      let take =
        plain (on_lock os reply have_clocklock on_owner_died signals item (some p) mutex_lock) in
      Triple-if {P = At p k} (Acquired p k) (not interruptible)
        (take >>= array_after_lock os reply have_clocklock on_owner_died signals item (some p))
        (wait_until os reply have_clocklock on_owner_died signals item fuel (some p) interruptible
          none)
        (λ e (a, tr) h'.
          after_lock-Acquired (mutex_lock (reply a) (some p) a.mutexes).0
            (record a { mutexes = (mutex_lock (reply a) (some p) a.mutexes).1 }, tr)
            (lock-Gains p (reply a) a.mutexes
              ∙ ap (gains (mutex_lock (reply a) (some p) a.mutexes).0) h'))
        (λ e. wait_until-Acquired fuel interruptible none) s h

  try_first-Acquired :
      (fuel : ℕ) (opts : Opts)
      → Triple
          (At p k)
          (try_first os reply have_clocklock on_owner_died signals item fuel (some p) opts)
          (Acquired p k)
  unfolding try_first
  try_first-Acquired fuel opts (a, tr) h =
      let tried =
        on_lock os reply have_clocklock on_owner_died signals item (some p) mutex_trylock (a, tr) in
      let wait =
        wait_for os reply have_clocklock on_owner_died signals item fuel (some p) opts.interruptible
          opts.timeout in
      Triple-if {P = Tried p k tried.0} (Acquired p k) (tried.0 != ebusy)
        (array_after_lock os reply have_clocklock on_owner_died signals item (some p) tried.0)
        (if at_once opts then give (returned false) else wait) (λ e. after_lock-Acquired tried.0)
        (λ e s h'.
          let at_k : At p k s = ground arith in
          Triple-if {P = At p k} (Acquired p k) (at_once opts) (give (returned false)) wait
            (λ e' s' h''. h'') (λ e'. wait_for-Acquired fuel opts.interruptible opts.timeout) s
            at_k)
        tried.1 (trylock-Gains p (reply a) a.mutexes ∙ ap (gains tried.0) h)

  with_index-Acquired :
      (fuel : ℕ) (opts : Opts) (lock : Option ℕ) (checked : Option Raised) (s : State)
      → lock ≡ some p
      → At p k s
      → After
          (Acquired p k)
          (with_index os reply have_clocklock on_owner_died signals item fuel lock opts checked s)
  unfolding with_index
  with_index-Acquired fuel opts lock (some e) s same h = h
  with_index-Acquired fuel opts lock none s same h = rw same (try_first-Acquired fuel opts s h)

  release_checked-Released :
      (lock : Option ℕ) (checked : Option Raised) (s : State)
      → lock ≡ some p
      → At p k s
      → Released p k
          (release_checked os reply have_clocklock on_owner_died signals item lock checked s)
  unfolding release_checked unlocked
  release_checked-Released lock (some e) s same h = h
  release_checked-Released lock none (a, tr) same h =
      let frees = unlock-held p (reply a) a.mutexes in rw same (ground arith)

-- An acquire of a mutex of an array, or of an item of it, that returns True holds the mutex once
-- more, and one that returns False or raises holds it as before, also where the owner has died; a
-- release that returns holds it once less, and one that raises as before. It is assumed that the
-- mutexes check their owner, that the callback of a dead owner and the signal handlers leave them
-- alone, and that no clock fails with EOWNERDEAD.
pub array_ops_lem :
    {os : Os} {reply : ArrayObject → Reply Mutex.Call} (have_clocklock : Bool)
    {on_owner_died : Option (State → Bool × State)} {signals : State → Bool × State} (item : Bool)
    → Honest os reply on_owner_died signals
    → (p fuel index : ℕ) (opts : Opts) (a : ArrayObject) (tr : Trace) → lock_at a index ≡ some p
    → After (Acquired p (holds_at p a)) (
        array_lock_index os reply have_clocklock on_owner_died signals item fuel index opts (a, tr))
      × Released p
          (holds_at p a)
          (array_release_index os reply have_clocklock on_owner_died signals item index (a, tr))
unfolding array_lock_index array_release_index
array_ops_lem have_clocklock item honest p fuel index opts a tr same = (
  with_index-Acquired have_clocklock item honest p (holds_at p a) fuel opts (lock_at a index)
      (index_checked a index) (a, tr) same refl,
  release_checked-Released have_clocklock item honest p (holds_at p a) (lock_at a index)
      (index_checked a index) (a, tr) same refl,
)
