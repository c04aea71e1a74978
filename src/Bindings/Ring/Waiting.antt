-- ===== src/Bindings/Ring/Waiting.antt =====
-- The waits of src/bindings/py_queue.c.
use posixipc.Prelude.{
  ℕ, suc, ◌≡◌, ◌≢◌, refl, arith, Bool, true, false, not, Option, none, some, is_null, inl, inr,
  ◌==◌, ◌!=◌, if◌then◌else◌, ◌∷◌,
}
use posixipc.Codes.{success, etimedout, error_interrupted, eownerdead}
use posixipc.Os.{Os, Event, Timespec, Ret, ok, fail, Io, pure, status_of}
use posixipc.Time.{Seconds, Deadline, now, deadline_from_seconds, deadline_expired}
use posixipc.Cond.{cond_clock, cond_wait}
use posixipc.Bindings.Run.{After, Triple, Triple-bind, Triple-if, give, plain, ◌>>=◌}
use posixipc.Bindings.Wait.{lift, clock_of, blocking_wait}
use posixipc.Bindings.Wait.Laws.{EndsUnless, EndsIf, EndsUnread, Waits, blocking_wait-Triple}
use posixipc.Bindings.Acquire.{Opts}
use posixipc.Bindings.Ring.{
  QueueObject, Env, State, on_cond, lent, recover_ring, queue_cond_until_cb, check_signals, waited,
  wait_until, deadline_set, with_timeout, queue_wait_cond,
}
use posixipc.Bindings.Ring.Laws.{
  Lends, Honest, Held, Own, Dead, owes, ByStatus, ByStatus-intro, ByStatus-if, recover_ring-Triple,
}

module _ {os : Os} {env : Env} {q : QueueObject} (honest : Honest os env q)
    (bound : is_null q.put_lock ≡ false) (k : ℕ) where
  -- the states behind a wait
  abbrev pub Awake : ℕ → State → Type 0
  Awake rc s = ByStatus rc (Dead q k s) (Own q k s) (Held q k s)

  lent-Awake :
      (r : ℕ × State)
      → owes r.1.0.mutexes ≡ suc k
      → r.1.0.mem ≡ r.1.0.found
      → Lends q.view r
      → Awake r.0 r.1
  lent-Awake (rc, (w, tr)) owed same (ring, dead) =
      ByStatus-intro rc (Dead q k (w, tr)) (Own q k (w, tr)) (Held q k (w, tr))
        (λ e. (owed, same, dead e)) (λ e. (owed, ring (inl e), inl same))
        (λ ne ne'. (owed, inl same))

  lent-ends :
      (r : ℕ × State)
      → owes r.1.0.mutexes ≡ suc k
      → r.1.0.mem ≡ r.1.0.found
      → Lends q.view r
      → EndsUnless etimedout (Own q k) Awake r
  lent-ends (rc, (w, tr)) owed same lends =
      elim (rc != etimedout)
          as (λ (b : Bool).
            (b ≡ false → rc ≡ etimedout) → if b then Awake rc (w, tr) else Own q k (w, tr)) [
              | true ↦ λ e. lent-Awake (rc, (w, tr)) owed same lends
              | false ↦ λ e. (owed, lends.0 (inr (e refl)), inl same)
            ]
        (λ e. ground arith)

  lifted-ends :
      (m : Io Bool) (s : State) → Own q k s → EndsIf (Own q k) (Awake etimedout) (lift m s)
  lifted-ends m (w, tr) own =
      elim ((m tr).0) as (λ (b : Bool). EndsIf (Own q k) (Awake etimedout) (b, (w, (m tr).1))) [
        | true ↦ (own.0, own.2)
        | false ↦ own
      ]

  signals_end :
      (s : State)
      → Own q k s
      → EndsIf (Own q k) (Awake error_interrupted) (check_signals os env q s)
  unfolding check_signals
  signals_end (w, tr) own =
      elim (env.interrupts w tr)
        as (λ (b : Bool). EndsIf (Own q k) (Awake error_interrupted) (b, (w, tr))) [
          | true ↦ (own.0, own.2)
          | false ↦ own
        ]

  now_ends :
      (clk : ℕ) (s : State) → Own q k s → EndsUnread (Own q k) Awake (lift (now os clk true) s)
  unfolding now
  now_ends clk (w, tr) own = go (os.clock_gettime tr clk) (honest.clocks tr clk)
    where
      go :
          (r : Ret Timespec)
          → status_of r ≢ eownerdead
          → let answer : Io (ℕ × Option Timespec) = elim r [
            | ok t ↦ pure (success, some t)
            | fail e ↦ pure (suc e, none)
          ] in
            EndsUnread (Own q k) Awake (lift answer (w, Event.clock_gettime clk r ∷ tr))
      go (ok t) ne = own
      go (fail e) ne =
          ByStatus-intro (suc e) (Dead q k (w, tr)) (Own q k (w, tr)) (Held q k (w, tr))
            (λ same. absurd (ne same)) (λ same. own) (λ ne' ne''. (own.0, own.2))

  ring-Waits :
      (cond : Option ℕ) (user : Option Deadline) (clk : ℕ)
      → Waits os
          (check_signals os env q)
          (queue_cond_until_cb os env q cond)
          (Own q k)
          user
          clk
          Awake
  unfolding queue_cond_until_cb
  ring-Waits cond user clk = record {
    times = now_ends (clock_of user clk);
    calls = λ d (w, tr) own.
        lent-ends (queue_cond_until_cb os env q cond d (w, tr)) own.0 refl
          (honest.times_out cond d (w, tr));
    signals = signals_end;
    expires = λ d s e own. lifted-ends (deadline_expired os (some d)) s own;
  }

  -- the states behind `queue_wait_cond`
  abbrev pub OwnOrHeld : ℕ → State → Type 0
  OwnOrHeld rc s = if rc == success then Own q k s else Held q k s

  Own-OwnOrHeld : (rc : ℕ) (s : State) → Own q k s → OwnOrHeld rc s
  Own-OwnOrHeld rc s own =
      elim (rc == success) as (λ (b : Bool). if b then Own q k s else Held q k s) [
        | true ↦ own
        | false ↦ (own.0, own.2)
      ]

  Held-OwnOrHeld : (rc : ℕ) (s : State) → rc ≢ success → Held q k s → OwnOrHeld rc s
  Held-OwnOrHeld rc s ne held =
      elim (rc == success)
          as (λ (b : Bool). (b ≡ true → rc ≡ success) → if b then Own q k s else Held q k s) [
            | true ↦ λ e. absurd (ne (e refl))
            | false ↦ λ e. held
          ]
        (λ e. ground arith)

  waited-Triple : (rc : ℕ) (s : State) → Awake rc s → After OwnOrHeld (waited os env q rc s)
  unfolding waited
  waited-Triple rc s =
      ByStatus-if OwnOrHeld rc (Dead q k s) (Own q k s) (Held q k s) (recover_ring os env q give)
        (give rc) s
        (recover_ring-Triple honest bound k give OwnOrHeld
          (λ rc' ne s' held. Held-OwnOrHeld rc' s' ne held) (λ s' own. own) s)
        (λ h. h)

  wait_until-Triple :
      (fuel : ℕ) (cond : Option ℕ) (opts : Opts) (user : Option Deadline)
      → Triple (Own q k) (wait_until os env q fuel cond opts user) OwnOrHeld
  unfolding wait_until queue_cond_until_cb
  wait_until-Triple fuel cond opts user =
      Triple-bind {Q = Awake} OwnOrHeld (waited os env q) waited-Triple
        (blocking_wait os (check_signals os env q) (queue_cond_until_cb os env q cond) fuel user
          opts.interruptible (cond_clock q.cond_flags))
        (blocking_wait-Triple os (check_signals os env q) (queue_cond_until_cb os env q cond)
          (ring-Waits cond user (cond_clock q.cond_flags)) fuel opts.interruptible
          (λ d (w, tr) own.
            lent-Awake (queue_cond_until_cb os env q cond d (w, tr)) own.0 refl
              (honest.times_out cond d (w, tr))))

  deadline_set-After :
      (fuel : ℕ) (cond : Option ℕ) (opts : Opts) (r : (ℕ × Option Deadline) × State)
      → Own q k r.1
      → After OwnOrHeld (deadline_set os env q fuel cond opts r.0 r.1)
  unfolding deadline_set
  deadline_set-After fuel cond opts ((rc, none), s) own = Own-OwnOrHeld rc s own
  deadline_set-After fuel cond opts ((rc, some user), s) own =
      wait_until-Triple fuel cond opts (some user) s own

  with_timeout-Triple :
      (fuel : ℕ) (cond : Option ℕ) (opts : Opts) (timeout : Option Seconds)
      → Triple (Own q k) (with_timeout os env q fuel cond opts timeout) OwnOrHeld
  unfolding with_timeout
  with_timeout-Triple fuel cond opts (some t) (w, tr) own =
      deadline_set-After fuel cond opts
        (lift (deadline_from_seconds os (cond_clock q.cond_flags) t true) (w, tr)) own
  with_timeout-Triple fuel cond opts none s own =
      let wait = λ (s : State).
        lent os env q (on_cond os env q (λ reply. cond_wait reply cond q.put_lock) s) in
      Triple-if {P = Own q k} OwnOrHeld (not opts.interruptible) (plain wait >>= waited os env q)
        (wait_until os env q fuel cond opts none)
        (λ e.
          Triple-bind {Q = Awake} OwnOrHeld (waited os env q) waited-Triple (plain wait)
            (λ (w, tr) own. lent-Awake (wait (w, tr)) own.0 refl (honest.waits cond (w, tr))))
        (λ e. wait_until-Triple fuel cond opts none) s own

  -- A wait of the queue comes back with the lock, and with a ring where it succeeds.
  pub queue_wait_cond-Triple :
      (fuel : ℕ) (cond : Option ℕ) (opts : Opts)
      → Triple (Own q k) (queue_wait_cond os env q fuel cond opts) OwnOrHeld
  unfolding queue_wait_cond
  queue_wait_cond-Triple fuel cond opts = with_timeout-Triple fuel cond opts opts.timeout
