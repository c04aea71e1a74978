-- ===== src/Bindings/Semaphore/Laws.antt =====
-- The units that a semaphore object of src/bindings/py_sync.c takes and gives.
use posixipc.Prelude.{
  ℕ, suc, ◌≡◌, ◌≢◌, refl, ap, ◌∙◌, arith, Bool, true, false, not, Option, none, some, List, ◌∷◌,
  ◌==◌, ◌!=◌, ◌||◌, ◌&&◌, if◌then◌else◌,
}
use posixipc.Codes.{success, einval, etimedout, ebusy, eagain, error_interrupted}
use posixipc.Os.{Os}
use posixipc.Calls.{Log, Reply}
use posixipc.Time.{Seconds, Deadline, deadline_from_seconds}
use posixipc.Sem.{sem_clock, sem_wait, sem_trywait, sem_post, sem_wait_until}
use posixipc.Sem
use posixipc.Bindings.Errors.{Raised, Outcome, returned, raised, posixipc_err}
use posixipc.Bindings.Run.{After, Triple, Triple-bind, Triple-if, give, plain, ◌>>=◌}
use posixipc.Bindings.Acquire.{Value, Key, Opts, posixipc_parse_acquire}
use posixipc.Bindings.Wait.{lift, blocking_wait}
use posixipc.Bindings.Wait.Counting.{Misses, counting_wait-Triple}
use posixipc.Bindings.Wait.Counting
use posixipc.Bindings.Exchange.{at_once}
use posixipc.Bindings.Semaphore.{
  SemaphoreObject, State, on_sem, sem_until_cb, sem_check_open, sem_waited, sem_called, wait_until,
  deadline_set, wait_for, try_first, with_opts, sem_acquire,
}

module _ (count : Log Sem.Call → ℕ) (gains : ℕ → ℕ → ℕ) where
  -- behind an acquire from `k` on
  abbrev pub Acquired : ℕ → Outcome Bool → State → Type 0
  Acquired k (returned true) (o, tr) = count o.sems ≡ gains success k
  Acquired k (returned false) (o, tr) = count o.sems ≡ k
  Acquired k (raised e) (o, tr) = count o.sems ≡ k

-- a count of the calls, `gains rc k` behind one of them that gave `rc`
module _ (count : Log Sem.Call → ℕ) (gains : ℕ → ℕ → ℕ)
    (only : (rc k : ℕ) → rc ≢ success → gains rc k ≡ k)
    (counts : (reply : Reply Sem.Call) (log : Log Sem.Call) (s : ℕ)
      → (count ((Sem.Call.wait s, reply log (Sem.Call.wait s)) ∷ log)
          ≡ gains (reply log (Sem.Call.wait s)) (count log))
        × (count ((Sem.Call.trywait s, reply log (Sem.Call.trywait s)) ∷ log)
            ≡ gains (reply log (Sem.Call.trywait s)) (count log)))
    (times : (log : Log Sem.Call) (s rc : ℕ) (d : Deadline)
      → (count ((Sem.Call.clockwait s d.clk d.ts, rc) ∷ log) ≡ gains rc (count log))
        × (count ((Sem.Call.timedwait s d.ts, rc) ∷ log) ≡ gains rc (count log))) where
  abbrev units : SemaphoreObject → ℕ
  units o = count o.sems

  gains-Misses : (os : Os) → Misses os gains
  gains-Misses os = record {
    timeout = λ k. only etimedout k (λ e. absurd (omega arith));
    signal = λ k. only error_interrupted k (λ e. absurd (omega arith));
    clock = λ tr clk e k same. only (suc e) k (λ q. absurd (omega arith));
  }

  module _ (reply : Reply Sem.Call) (log : Log Sem.Call) where
    abbrev Gains : ℕ × Log Sem.Call → Type 0
    Gains (rc, log') = count log' ≡ gains rc (count log)

    einval-Gains : Gains (einval, log)
    einval-Gains = rw (only einval (count log) (λ e. absurd (omega arith))) refl

    wait-Gains : (s : Option ℕ) → Gains (sem_wait reply s log)
    unfolding sem_wait
    wait-Gains none = einval-Gains
    wait-Gains (some s) = (counts reply log s).0

    trywait-Gains : (s : Option ℕ) → Gains (sem_trywait reply s log)
    unfolding sem_trywait
    trywait-Gains none = einval-Gains
    trywait-Gains (some s) = (counts reply log s).1

    until-Gains :
        (have_clockwait : Bool) (s : Option ℕ) (d : Deadline)
        → Gains (sem_wait_until reply have_clockwait s (some d) log)
    unfolding sem_wait_until
    until-Gains have_clockwait none d = einval-Gains
    until-Gains true (some s) d = (times log s (reply log (Sem.Call.clockwait s d.clk d.ts)) d).0
    until-Gains false (some s) d =
        ground (arith, einval-Gains, (times log s (reply log (Sem.Call.timedwait s d.ts)) d).1)

  abbrev At : ℕ → State → Type 0
  At = Counting.At units

  abbrev Tried : ℕ → ℕ → State → Type 0
  Tried = Counting.Tried units gains

  Acquired-if :
      (k : ℕ) (c : Bool) (a b : Outcome Bool) (s : State)
      → (c ≡ true → Acquired count gains k a s)
      → (c ≡ false → Acquired count gains k b s)
      → Acquired count gains k (if c then a else b) s
  Acquired-if k true a b s h h' = h refl
  Acquired-if k false a b s h h' = h' refl

  missed : (k rc : ℕ) (s : State) → rc ≢ success → Tried k rc s → At k s
  missed k rc s ne h = h ∙ only rc k ne

  called-Acquired : (k rc : ℕ) (s : State) → Tried k rc s → Acquired count gains k (sem_called rc) s
  unfolding sem_called
  called-Acquired k rc s h =
      Acquired-if k (rc == success) (returned true) (raised (posixipc_err rc)) s
        (λ e. let fine : rc ≡ success = ground arith in h ∙ ap (λ (n : ℕ). gains n k) fine)
        (λ e. missed k rc s (ground arith) h)

  waited-Acquired : (k rc : ℕ) (s : State) → Tried k rc s → Acquired count gains k (sem_waited rc) s
  unfolding sem_waited
  waited-Acquired k rc s h =
      Acquired-if k (rc == success) (returned true) _ s
        (λ e. let fine : rc ≡ success = ground arith in h ∙ ap (λ (n : ℕ). gains n k) fine)
        (λ e.
          let left = missed k rc s (ground arith) h in
          Acquired-if k (rc == etimedout || rc == eagain) (returned false) _ s (λ _. left)
            (λ _.
              Acquired-if k (rc == error_interrupted) (raised (some Raised.pending))
                (raised (posixipc_err rc)) s (λ _. left) (λ _. left)))

  module _ (os : Os) (reply : SemaphoreObject → Reply Sem.Call) (have_clockwait : Bool)
      (signals : State → Bool × State) (handlers : (s : State) → (signals s).1.0.sems ≡ s.0.sems)
      (k : ℕ) where
    until-Tried :
        (d : Deadline) (s : State)
        → At k s
        → let (rc, s') = sem_until_cb os reply have_clockwait signals d s in Tried k rc s'
    until-Tried d (o, tr) h =
        let r = sem_wait_until (reply o) have_clockwait o.sem (some d) o.sems in
        until-Gains (reply o) o.sems have_clockwait o.sem d ∙ ap (gains r.0) h

    wait_until-Acquired :
        (fuel : ℕ) (interruptible : Bool) (user : Option Deadline)
        → Triple
            (At k)
            (wait_until os reply have_clockwait signals fuel interruptible user)
            (Acquired count gains k)
    unfolding wait_until
    wait_until-Acquired fuel interruptible user =
        let cb = sem_until_cb os reply have_clockwait signals in
        let clk = sem_clock have_clockwait in
        Triple-bind {Q = Tried k} (Acquired count gains k) (λ rc. give (sem_waited rc))
          (waited-Acquired k) (blocking_wait os signals cb fuel user interruptible clk)
          (counting_wait-Triple units (gains-Misses os) signals (λ s. ap count (handlers s)) cb k
            until-Tried fuel user interruptible clk)

    deadline_set-Acquired :
        (fuel : ℕ) (interruptible : Bool) (r : (ℕ × Option Deadline) × State)
        → At k r.1
        → After
            (Acquired count gains k)
            (deadline_set os reply have_clockwait signals fuel interruptible r.0 r.1)
    unfolding deadline_set
    deadline_set-Acquired fuel interruptible ((rc, none), s) h = h
    deadline_set-Acquired fuel interruptible ((rc, some user), s) h =
        wait_until-Acquired fuel interruptible (some user) s h

    wait_for-Acquired :
        (fuel : ℕ) (interruptible : Bool) (timeout : Option Seconds)
        → Triple
            (At k)
            (wait_for os reply have_clockwait signals fuel interruptible timeout)
            (Acquired count gains k)
    unfolding wait_for
    wait_for-Acquired fuel interruptible (some t) (o, tr) h =
        deadline_set-Acquired fuel interruptible
          (lift (deadline_from_seconds os (sem_clock have_clockwait) t true) (o, tr)) h
    wait_for-Acquired fuel interruptible none s h =
        let take = plain (on_sem os reply have_clockwait signals sem_wait) in
        Triple-if {P = At k} (Acquired count gains k) (not interruptible)
          (take >>= λ rc. give (sem_called rc))
          (wait_until os reply have_clockwait signals fuel interruptible none)
          (λ e (o, tr) h'.
            called-Acquired k _ _ (
              wait-Gains (reply o) o.sems o.sem
              ∙ ap (gains (sem_wait (reply o) o.sem o.sems).0) h'))
          (λ e. wait_until-Acquired fuel interruptible none) s h

    try_first-Acquired :
        (fuel : ℕ) (opts : Opts)
        → Triple
            (At k)
            (try_first os reply have_clockwait signals fuel opts)
            (Acquired count gains k)
    unfolding try_first
    try_first-Acquired fuel opts (o, tr) h =
        let tried = on_sem os reply have_clockwait signals sem_trywait (o, tr) in
        let wait = wait_for os reply have_clockwait signals fuel opts.interruptible opts.timeout in
        Triple-if {P = Tried k tried.0} (Acquired count gains k)
          (tried.0 != eagain && tried.0 != ebusy) (give (sem_called tried.0))
          (if at_once opts then give (returned false) else wait)
          (λ e s h'. called-Acquired k tried.0 s h')
          (λ e s h'.
            Triple-if {P = At k} (Acquired count gains k) (at_once opts) (give (returned false))
              wait (λ e' s' h''. h'') (λ e'. wait_for-Acquired fuel opts.interruptible opts.timeout)
              s (missed k tried.0 s (ground arith) h'))
          tried.1 (trywait-Gains (reply o) o.sems o.sem ∙ ap (gains tried.0) h)

    pub acquire-Acquired :
        (fuel : ℕ) (args : List Value) (keys : List (Key × Value))
        → Triple
            (At k)
            (sem_acquire os reply have_clockwait signals fuel args keys)
            (Acquired count gains k)
    unfolding sem_acquire with_opts
    acquire-Acquired fuel args keys (o, tr) h =
        go (sem_check_open o) (posixipc_parse_acquire args keys)
      where
        go :
            (checked : Option Raised) (opts : Outcome Opts)
            → After
                (Acquired count gains k)
                (with_opts os reply have_clockwait signals fuel checked opts (o, tr))
        go (some e) opts = h
        go none (raised e) = h
        go none (returned opts) = try_first-Acquired fuel opts (o, tr) h
