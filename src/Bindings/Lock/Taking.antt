-- ===== src/Bindings/Lock/Taking.antt =====
-- How acquire of src/bindings/py_mutex.c takes the lock: the first try, the waits and what follows.
use posixipc.Prelude.{
  ℕ, suc, ◌≡◌, ◌≢◌, refl, arith, Bool, true, false, not, Option, none, some, ◌∷◌, is_null, ◌!=◌,
  ◌||◌, ◌&&◌, if◌then◌else◌,
}
use posixipc.Codes.{success, etimedout, ebusy, eownerdead, error_interrupted}
use posixipc.Os.{Os, Io, Trace, Event, Timespec, Ret, ok, fail, pure, status_of}
use posixipc.Calls.{Log, Reply}
use posixipc.Time.{Seconds, Deadline, now, deadline_from_seconds, deadline_expired}
use posixipc.Mutex.{mutex_lock, mutex_trylock, mutex_unlock, mutex_lock_until}
use posixipc.Mutex
use posixipc.Bindings.Errors.{Outcome, returned, raised}
use posixipc.Bindings.Run.{After, Triple, Triple-bind, Triple-if, give, plain, ◌>>=◌}
use posixipc.Bindings.Acquire.{Opts}
use posixipc.Bindings.Wait.{lift, clock_of, mutex_clock, blocking_wait}
use posixipc.Bindings.Wait.Laws.{EndsUnless, EndsIf, EndsUnread, Waits, blocking_wait-Triple}
use posixipc.Bindings.Lock.{
  MutexObject, State, on_mutex, mutex_after_lock, mutex_lock_until_cb, wait_until, deadline_set,
  wait_for, try_first, with_opts,
}
use posixipc.Bindings.Lock.Laws.{
  Tries, lock-Tries, trylock-Tries, lock_until-Tries, Balanced, Tried, Acquired, ErrorChecks,
  mutex_after_lock-Triple,
}

-- a bound object, whose flag says whether the lock is held
abbrev pub Ready : State → Type 0
Ready (m, tr) = (is_null m.lock ≡ false) × Balanced (m, tr)

module _ {os : Os} {reply : MutexObject → Reply Mutex.Call} (have_clocklock : Bool)
    {on_owner_died : Option (State → Bool × State)} {signals : State → Bool × State}
    (checks : ErrorChecks os reply on_owner_died signals) where
  try-Tried :
      (m : MutexObject) (tr : Trace) (r : ℕ × Log Mutex.Call)
      → Tries (reply m) m.mutexes r
      → Ready (m, tr)
      → Tried r.0 (record m { mutexes = r.1 }, tr)
  try-Tried m tr (rc, log) (counts, from) (bound, balanced) = go m.locked refl
    where
      go : (b : Bool) → m.locked ≡ b → Tried rc (record m { mutexes = log }, tr)
      go true locked = (
        (λ got.
            let (c, takes_it, same) = from got in
            let (ne, ne') = checks.refuses m c takes_it (ground arith) in absurd (ground arith)),
        λ ne ne'. ground arith,
      )
      go false unlocked = ((λ got. (bound, ground arith)), λ ne ne'. ground arith)

  after-Ready :
      (m : MutexObject) (tr : Trace) (r : ℕ × Log Mutex.Call)
      → r.0 ≢ success
      → r.0 ≢ eownerdead
      → is_null m.lock ≡ false
      → Tried r.0 (record m { mutexes = r.1 }, tr)
      → Ready (record m { mutexes = r.1 }, tr)
  after-Ready m tr r ne ne' bound (fresh, balanced) = (bound, balanced ne ne')

  try-ends :
      (m : MutexObject) (tr : Trace) (r : ℕ × Log Mutex.Call)
      → Tries (reply m) m.mutexes r
      → Ready (m, tr)
      → EndsUnless etimedout Ready Tried (r.0, (record m { mutexes = r.1 }, tr))
  try-ends m tr r tries ready =
      elim (r.0 != etimedout)
          as (λ (b : Bool).
            (b ≡ false → r.0 ≡ etimedout)
            → if b
              then Tried r.0 (record m { mutexes = r.1 }, tr)
              else Ready (record m { mutexes = r.1 }, tr)) [
                | true ↦ λ e. try-Tried m tr r tries ready
                | false ↦ λ e.
                    let late = e refl in
                    after-Ready m tr r (λ e'. ground arith) (λ e'. ground arith) ready.0
                      (try-Tried m tr r tries ready)
              ]
        (λ e. ground arith)

  lifted-ends : (m : Io Bool) (s : State) → Ready s → EndsIf Ready (Tried etimedout) (lift m s)
  lifted-ends m (o, tr) ready =
      elim ((m tr).0) as (λ (b : Bool). EndsIf Ready (Tried etimedout) (b, (o, (m tr).1))) [
        | true ↦ ((λ got. absurd (ground arith)), λ ne ne'. ready.1)
        | false ↦ ready
      ]

  signals_end : (r : Bool × State) → Ready r.1 → EndsIf Ready (Tried error_interrupted) r
  signals_end (true, s) ready = ((λ got. absurd (ground arith)), λ ne ne'. ready.1)
  signals_end (false, s) ready = ready

  now_ends : (clk : ℕ) (s : State) → Ready s → EndsUnread Ready Tried (lift (now os clk true) s)
  unfolding now
  now_ends clk (o, tr) ready = go (os.clock_gettime tr clk) (checks.clocks tr clk)
    where
      go :
          (r : Ret Timespec)
          → status_of r ≢ eownerdead
          → let answer : Io (ℕ × Option Timespec) = elim r [
            | ok t ↦ pure (success, some t)
            | fail e ↦ pure (suc e, none)
          ] in
            EndsUnread Ready Tried (lift answer (o, Event.clock_gettime clk r ∷ tr))
      go (ok t) ne = ready
      go (fail e) ne = ((λ got. absurd (ground arith)), λ ne' ne''. ready.1)

  lock-Waits :
      (user : Option Deadline) (clk : ℕ)
      → Waits os signals
          (mutex_lock_until_cb os reply have_clocklock on_owner_died signals)
          Ready
          user
          clk
          Tried
  unfolding mutex_lock_until_cb
  lock-Waits user clk = record {
    times = now_ends (clock_of user clk);
    calls = λ d (m, tr) ready.
        try-ends m tr (mutex_lock_until (reply m) have_clocklock m.lock (some d) m.mutexes)
          (lock_until-Tries (reply m) m.mutexes have_clocklock m.lock d) ready;
    signals = λ s ready. signals_end (signals s) (rw (checks.handlers s) ready);
    expires = λ d s e ready. lifted-ends (deadline_expired os (some d)) s ready;
  }

  wait_until-Triple :
      (fuel : ℕ) (interruptible : Bool) (user : Option Deadline)
      → Triple Ready
          (wait_until os reply have_clocklock on_owner_died signals fuel interruptible user)
          Acquired
  unfolding wait_until mutex_lock_until_cb
  wait_until-Triple fuel interruptible user =
      let cb = mutex_lock_until_cb os reply have_clocklock on_owner_died signals in
      let clk = mutex_clock have_clocklock in
      Triple-bind {Q = Tried} Acquired
        (mutex_after_lock os reply have_clocklock on_owner_died signals)
        (mutex_after_lock-Triple have_clocklock checks)
        (blocking_wait os signals cb fuel user interruptible clk)
        (blocking_wait-Triple os signals cb (lock-Waits user clk) fuel interruptible
          (λ d (m, tr) ready.
            try-Tried m tr (mutex_lock_until (reply m) have_clocklock m.lock (some d) m.mutexes)
              (lock_until-Tries (reply m) m.mutexes have_clocklock m.lock d) ready))

  deadline_set-After :
      (fuel : ℕ) (interruptible : Bool) (r : (ℕ × Option Deadline) × State)
      → Ready r.1
      → After Acquired
          (deadline_set os reply have_clocklock on_owner_died signals fuel interruptible r.0 r.1)
  unfolding deadline_set
  deadline_set-After fuel interruptible ((rc, none), s) ready = ready.1
  deadline_set-After fuel interruptible ((rc, some user), s) ready =
      wait_until-Triple fuel interruptible (some user) s ready

  wait_for-Triple :
      (fuel : ℕ) (interruptible : Bool) (timeout : Option Seconds)
      → Triple Ready
          (wait_for os reply have_clocklock on_owner_died signals fuel interruptible timeout)
          Acquired
  unfolding wait_for
  wait_for-Triple fuel interruptible (some t) (m, tr) ready =
      deadline_set-After fuel interruptible
        (lift (deadline_from_seconds os (mutex_clock have_clocklock) t true) (m, tr)) ready
  wait_for-Triple fuel interruptible none s ready =
      let lock = plain (on_mutex os reply have_clocklock on_owner_died signals mutex_lock) in
      Triple-if {P = Ready} Acquired (not interruptible)
        (lock >>= mutex_after_lock os reply have_clocklock on_owner_died signals)
        (wait_until os reply have_clocklock on_owner_died signals fuel interruptible none)
        (λ e.
          Triple-bind {Q = Tried} Acquired
            (mutex_after_lock os reply have_clocklock on_owner_died signals)
            (mutex_after_lock-Triple have_clocklock checks) lock
            (λ (m, tr) ready'.
              try-Tried m tr (mutex_lock (reply m) m.lock m.mutexes)
                (lock-Tries (reply m) m.mutexes m.lock) ready'))
        (λ e. wait_until-Triple fuel interruptible none) s ready

  try_first-Triple :
      (fuel : ℕ) (opts : Opts)
      → Triple Ready (try_first os reply have_clocklock on_owner_died signals fuel opts) Acquired
  unfolding try_first
  try_first-Triple fuel opts (m, tr) ready =
      let r = mutex_trylock (reply m) m.lock m.mutexes in
      let tried = try-Tried m tr r (trylock-Tries (reply m) m.mutexes m.lock) ready in
      let now_or_late = not opts.blocking || (not (is_null opts.timeout) && opts.zero_timeout) in
      let wait =
        wait_for os reply have_clocklock on_owner_died signals fuel opts.interruptible
          opts.timeout in
      Triple-if {P = λ s. Tried r.0 s × (is_null s.0.lock ≡ false)} Acquired (r.0 != ebusy)
        (mutex_after_lock os reply have_clocklock on_owner_died signals r.0)
        (if now_or_late then give (returned false) else wait)
        (λ e s (tried', bound). mutex_after_lock-Triple have_clocklock checks r.0 s tried')
        (λ e s (tried', bound).
          Triple-if {P = Ready} Acquired now_or_late (give (returned false)) wait
            (λ e' s' ready'. ready'.1) (λ e'. wait_for-Triple fuel opts.interruptible opts.timeout)
            s (bound, tried'.1 (λ e'. ground arith) (λ e'. ground arith)))
        (record m { mutexes = r.1 }, tr) (tried, ready.0)

  pub with_opts-Triple :
      (fuel : ℕ) (opts : Outcome Opts)
      → Triple Ready (with_opts os reply have_clocklock on_owner_died signals fuel opts) Acquired
  unfolding with_opts
  with_opts-Triple fuel (raised e) s ready = ready.1
  with_opts-Triple fuel (returned opts) s ready = try_first-Triple fuel opts s ready
