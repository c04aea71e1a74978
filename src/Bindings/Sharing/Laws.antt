-- ===== src/Bindings/Sharing/Laws.antt =====
-- What acquire and release of a read-write lock of src/bindings/py_sync.c do to the lock.
use posixipc.Prelude.{
  ℕ, ◌≡◌, refl, ap, ◌∙◌, arith, Bool, true, false, not, Option, none, some, List, [], ◌∷◌, is_null,
  ◌==◌, ◌!=◌, ◌||◌, ◌&&◌, if◌then◌else◌,
}
use posixipc.Codes.{success, etimedout, ebusy, eperm}
use posixipc.Os.{Os, Trace}
use posixipc.Calls.{Log, Reply, Calls}
use posixipc.Time.{Seconds, Deadline, deadline_from_seconds}
use posixipc.Rwlock.{
  rwlock_clock, rwlock_rdlock, rwlock_wrlock, rwlock_tryrdlock, rwlock_trywrlock, rwlock_unlock,
  rwlock_rdlock_until, rwlock_wrlock_until,
}
use posixipc.Rwlock
use posixipc.Bindings.Errors.{Raised, Outcome, returned, raised, posixipc_err}
use posixipc.Bindings.Run.{After, Triple, Triple-bind, Triple-if, give, plain, ◌>>=◌}
use posixipc.Bindings.Acquire.{Opts}
use posixipc.Bindings.Wait.{lift, blocking_wait}
use posixipc.Bindings.Wait.Counting.{Misses, counting_wait-Triple}
use posixipc.Bindings.Wait.Counting
use posixipc.Bindings.Sharing.{
  State, rwlock_result, on_mode, until_cb, wait_until, deadline_set, wait_for, rwlock_acquire_mode,
  rwlock_release,
}

-- How a lock is held: for reading or for writing.
pub data Mode : Type 0 where
  reading writing : Mode

abbrev pub mode_of : Bool → Mode
mode_of true = writing
mode_of false = reading

abbrev gains : Mode → ℕ → List Mode → List Mode
gains mode rc held = if rc == success then mode ∷ held else held

abbrev pub rest : List Mode → List Mode
rest [] = []
rest (mode ∷ held) = held

-- how the lock is held by the calls, once for each lock of it, the last one first
abbrev pub holds : Log Rwlock.Call → List Mode
holds [] = []
holds ((Rwlock.Call.rdlock m, rc) ∷ log) = gains reading rc (holds log)
holds ((Rwlock.Call.wrlock m, rc) ∷ log) = gains writing rc (holds log)
holds ((Rwlock.Call.tryrdlock m, rc) ∷ log) = gains reading rc (holds log)
holds ((Rwlock.Call.trywrlock m, rc) ∷ log) = gains writing rc (holds log)
holds ((Rwlock.Call.clockrdlock m clk ts, rc) ∷ log) = gains reading rc (holds log)
holds ((Rwlock.Call.clockwrlock m clk ts, rc) ∷ log) = gains writing rc (holds log)
holds ((Rwlock.Call.timedrdlock m ts, rc) ∷ log) = gains reading rc (holds log)
holds ((Rwlock.Call.timedwrlock m ts, rc) ∷ log) = gains writing rc (holds log)
holds ((Rwlock.Call.unlock m, rc) ∷ log) = if rc == success then rest (holds log) else holds log
holds (c ∷ log) = holds log

-- a status and a log of a call that takes the lock exactly if it succeeds
abbrev pub Gains : Mode → List Mode → ℕ × Log Rwlock.Call → Type 0
Gains mode k (rc, log) = holds log ≡ gains mode rc k

module _ (reply : Reply Rwlock.Call) (log : Log Rwlock.Call) where
  rdlock-Gains :
      (p : Option ℕ)
      → Gains reading (holds log) (rwlock_rdlock reply p log)
        × Gains writing (holds log) (rwlock_wrlock reply p log)
  unfolding rwlock_rdlock rwlock_wrlock
  rdlock-Gains none = (refl, refl)
  rdlock-Gains (some p) = (refl, refl)

  tryrdlock-Gains :
      (p : Option ℕ)
      → Gains reading (holds log) (rwlock_tryrdlock reply p log)
        × Gains writing (holds log) (rwlock_trywrlock reply p log)
  unfolding rwlock_tryrdlock rwlock_trywrlock
  tryrdlock-Gains none = (refl, refl)
  tryrdlock-Gains (some p) = (refl, refl)

  until-Gains :
      (have_clocklock : Bool) (p : Option ℕ) (d : Deadline)
      → Gains reading (holds log) (rwlock_rdlock_until reply have_clocklock p (some d) log)
        × Gains writing (holds log) (rwlock_wrlock_until reply have_clocklock p (some d) log)
  unfolding rwlock_rdlock_until rwlock_wrlock_until
  until-Gains have_clocklock none d = (refl, refl)
  until-Gains have_clocklock (some p) d = (ground arith, ground arith)

unlock-frees :
    (reply : Reply Rwlock.Call) (log : Log Rwlock.Call) (p : Option ℕ)
    → holds (rwlock_unlock reply p log).1
      ≡ (if (rwlock_unlock reply p log).0 == success then rest (holds log) else holds log)
unfolding rwlock_unlock
unlock-frees reply log none = refl
unlock-frees reply log (some p) = refl

-- behind an acquire in a mode from `k` on: one more of the mode with True
abbrev pub Taken : Mode → List Mode → Outcome Bool → State → Type 0
Taken mode k (returned true) (log, tr) = holds log ≡ mode ∷ k
Taken mode k (returned false) (log, tr) = holds log ≡ k
Taken mode k (raised e) (log, tr) = holds log ≡ k

-- behind a release
abbrev pub Given : List Mode → Outcome Bool × State → Type 0
Given k (returned b, (log, tr)) = holds log ≡ rest k
Given k (raised e, (log, tr)) = holds log ≡ k

Given-if :
    (k : List Mode) (c : Bool) (a b : Outcome Bool) (s : State)
    → (c ≡ true → Given k (a, s))
    → (c ≡ false → Given k (b, s))
    → Given k ((if c then a else b), s)
Given-if k true a b s h h' = h refl
Given-if k false a b s h h' = h' refl

Taken-if :
    (mode : Mode) (k : List Mode) (s : State) (c : Bool) (a b : Outcome Bool)
    → (c ≡ true → Taken mode k a s)
    → (c ≡ false → Taken mode k b s)
    → Taken mode k (if c then a else b) s
Taken-if mode k s true a b h h' = h refl
Taken-if mode k s false a b h h' = h' refl

result-Taken :
    (mode : Mode) (k : List Mode) (rc : ℕ) (s : State)
    → holds s.0 ≡ gains mode rc k
    → Taken mode k (rwlock_result rc) s
unfolding rwlock_result
result-Taken mode k rc s h =
    Taken-if mode k s (rc == success) (returned true) _ (λ e. ground arith)
      (λ e.
        Taken-if mode k s (rc == etimedout || rc == ebusy) (returned false)
          (raised (posixipc_err rc)) (λ e'. ground arith) (λ e'. ground arith))

abbrev At : List Mode → State → Type 0
At = Counting.At holds

abbrev Tried : Mode → List Mode → ℕ → State → Type 0
Tried mode = Counting.Tried holds (gains mode)

gains-Misses : (os : Os) (mode : Mode) → Misses os (gains mode)
gains-Misses os mode = record {
  timeout = λ k. refl;
  signal = λ k. refl;
  clock = λ tr clk e k same. ground arith;
}

module _ (os : Os) (reply : Reply Rwlock.Call) (have_clocklock : Bool) (lock : Option ℕ)
    (signals : State → Bool × State) (handlers : (s : State) → (signals s).1.0 ≡ s.0)
    (k : List Mode) where
  mode-Tried :
      (writer : Bool) (write read : Reply Rwlock.Call → Option ℕ → Calls Rwlock.Call ℕ)
      (log : Log Rwlock.Call) (tr : Trace)
      → Gains reading (holds log) (read reply lock log)
        × Gains writing (holds log) (write reply lock log)
      → At k (log, tr)
      → let (rc, s) = on_mode os reply have_clocklock lock signals writer write read (log, tr) in
        Tried (mode_of writer) k rc s
  mode-Tried true write read log tr (r, w) at_k =
      w ∙ ap (gains writing (write reply lock log).0) at_k
  mode-Tried false write read log tr (r, w) at_k =
      r ∙ ap (gains reading (read reply lock log).0) at_k

  until-Tried :
      (writer : Bool) (d : Deadline) (s : State)
      → At k s
      → let (rc, s') = until_cb os reply have_clocklock lock signals writer d s in
        Tried (mode_of writer) k rc s'
  until-Tried writer d (log, tr) h =
      mode-Tried writer (λ r p. rwlock_wrlock_until r have_clocklock p (some d))
        (λ r p. rwlock_rdlock_until r have_clocklock p (some d)) log tr
        (until-Gains reply log have_clocklock lock d) h

  wait_until-Taken :
      (fuel : ℕ) (writer interruptible : Bool) (user : Option Deadline)
      → Triple
          (At k)
          (wait_until os reply have_clocklock lock signals fuel writer interruptible user)
          (Taken (mode_of writer) k)
  unfolding wait_until
  wait_until-Taken fuel writer interruptible user =
      let cb = until_cb os reply have_clocklock lock signals writer in
      let clk = rwlock_clock have_clocklock in
      Triple-bind {Q = Tried (mode_of writer) k} (Taken (mode_of writer) k)
        (λ rc. give (rwlock_result rc)) (result-Taken (mode_of writer) k)
        (blocking_wait os signals cb fuel user interruptible clk)
        (counting_wait-Triple holds (gains-Misses os (mode_of writer)) signals
          (λ s. ap holds (handlers s)) cb k (until-Tried writer) fuel user interruptible clk)

  deadline_set-Taken :
      (fuel : ℕ) (writer interruptible : Bool) (r : (ℕ × Option Deadline) × State)
      → At k r.1
      → After
          (Taken (mode_of writer) k)
          (deadline_set os reply have_clocklock lock signals fuel writer interruptible r.0 r.1)
  unfolding deadline_set
  deadline_set-Taken fuel writer interruptible ((rc, none), s) h = h
  deadline_set-Taken fuel writer interruptible ((rc, some user), s) h =
      wait_until-Taken fuel writer interruptible (some user) s h

  wait_for-Taken :
      (fuel : ℕ) (writer interruptible : Bool) (timeout : Option Seconds)
      → Triple
          (At k)
          (wait_for os reply have_clocklock lock signals fuel writer interruptible timeout)
          (Taken (mode_of writer) k)
  unfolding wait_for
  wait_for-Taken fuel writer interruptible (some t) (log, tr) h =
      deadline_set-Taken fuel writer interruptible
        (lift (deadline_from_seconds os (rwlock_clock have_clocklock) t true) (log, tr)) h
  wait_for-Taken fuel writer interruptible none s h =
      let take =
        plain (on_mode os reply have_clocklock lock signals writer rwlock_wrlock rwlock_rdlock) in
      Triple-if {P = At k} (Taken (mode_of writer) k) (not interruptible)
        (take >>= λ rc. give (rwlock_result rc))
        (wait_until os reply have_clocklock lock signals fuel writer interruptible none)
        (λ e (log, tr) h'.
          result-Taken (mode_of writer) k _ _
            (mode-Tried writer rwlock_wrlock rwlock_rdlock log tr (rdlock-Gains reply log lock) h'))
        (λ e. wait_until-Taken fuel writer interruptible none) s h

  acquire-Taken :
      (fuel : ℕ) (opts : Opts) (writer : Bool)
      → Triple
          (At k)
          (rwlock_acquire_mode os reply have_clocklock lock signals fuel opts writer)
          (Taken (mode_of writer) k)
  unfolding rwlock_acquire_mode
  acquire-Taken fuel opts writer (log, tr) h =
      let tried =
        on_mode os reply have_clocklock lock signals writer rwlock_trywrlock rwlock_tryrdlock
          (log, tr) in
      let late = not opts.blocking || (not (is_null opts.timeout) && opts.zero_timeout) in
      let wait =
        wait_for os reply have_clocklock lock signals fuel writer opts.interruptible opts.timeout in
      Triple-if {P = Tried (mode_of writer) k tried.0} (Taken (mode_of writer) k) (tried.0 != ebusy)
        (give (rwlock_result tried.0)) (if late then give (returned false) else wait)
        (λ e s h'. result-Taken (mode_of writer) k tried.0 s h')
        (λ e s h'.
          let at_k : At k s = ground arith in
          Triple-if {P = At k} (Taken (mode_of writer) k) late (give (returned false)) wait
            (λ e' s' h''. h'') (λ e'. wait_for-Taken fuel writer opts.interruptible opts.timeout) s
            at_k)
        tried.1
        (mode-Tried writer rwlock_trywrlock rwlock_tryrdlock log tr (tryrdlock-Gains reply log lock)
          h)

  release-Given :
      (s : State) → At k s → Given k (rwlock_release os reply have_clocklock lock signals s)
  unfolding rwlock_release
  release-Given (log, tr) h =
      let rc = (rwlock_unlock reply lock log).0 in
      let frees = unlock-frees reply log lock in
      Given-if k (rc == eperm) (raised (some Raised.runtime_error)) _
        ((rwlock_unlock reply lock log).1, tr) (λ e. ground arith)
        (λ e.
          Given-if k (rc != success) (raised (posixipc_err rc)) (returned true)
            ((rwlock_unlock reply lock log).1, tr) (λ e'. ground arith) (λ e'. ground arith))

  -- An acquire of a read-write lock that returns True holds the lock once more, for writing if it is
  -- an acquire for writing and else for reading, and one that returns False or raises holds it as
  -- before; a release that returns holds it once less, and one that raises as before. It is assumed that the signal handlers leave
  -- the lock alone.
  pub rwlock_ops_lem :
      (fuel : ℕ) (opts : Opts) (writer : Bool) (s : State)
      → holds s.0 ≡ k
      → After
          (Taken (mode_of writer) k)
          (rwlock_acquire_mode os reply have_clocklock lock signals fuel opts writer s)
        × Given k (rwlock_release os reply have_clocklock lock signals s)
  rwlock_ops_lem fuel opts writer s h = (acquire-Taken fuel opts writer s h, release-Given s h)
