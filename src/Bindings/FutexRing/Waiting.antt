-- ===== src/Bindings/FutexRing/Waiting.antt =====
-- The waits of the futex queue of src/bindings/py_linux.c.
use posixipc.Prelude.{
  ℕ, suc, ◌≡◌, ◌≢◌, refl, arith, Bool, true, false, Option, none, some, is_null, inl, inr, ◌==◌,
  ◌!=◌, if◌then◌else◌, ◌∷◌,
}
use posixipc.Codes.{success, etimedout}
use posixipc.Os.{Os, Event, Timespec, Ret, ok, fail, Io, pure}
use posixipc.Calls.{clock_monotonic}
use posixipc.Time.{Seconds, Deadline, now, deadline_from_seconds, deadline_expired}
use posixipc.Futex.{futex_load}
use posixipc.Bindings.Run.{After, Triple, Triple-bind, Triple-if, give}
use posixipc.Bindings.Wait.{lift, clock_of, blocking_wait}
use posixipc.Bindings.Wait.Laws.{EndsUnless, EndsIf, EndsUnread, Waits, blocking_wait-Triple}
use posixipc.Bindings.Acquire.{Opts}
use posixipc.Bindings.Exchange.Laws.{Fine}
use posixipc.Bindings.FutexRing.{
  FutexQueueObject, Env, State, Word, value, unlock, fq_lock, check_signals, futex_wait_cb,
  lock_again, wait_until, deadline_set, with_timeout, fq_wait_word,
}
use posixipc.Bindings.FutexRing.Laws.{Honest, Left, Held, Own, unlock-Left, fq_lock-Triple}

module _ {os : Os} {env : Env} {q : FutexQueueObject} (honest : Honest os env q)
    (bound : is_null q.put_lock ≡ false) where
  -- nothing of the wait itself touches the lock or the ring
  lifted_if : (m : Io Bool) (s : State) → Left q s → EndsIf (Left q) (Left q) (lift m s)
  lifted_if m (w, tr) left =
      elim ((m tr).0) as (λ (b : Bool). EndsIf (Left q) (Left q) (b, (w, (m tr).1))) [
        | true ↦ left
        | false ↦ left
      ]

  signals_if : (s : State) → Left q s → EndsIf (Left q) (Left q) (check_signals os env q s)
  unfolding check_signals
  signals_if (w, tr) left =
      elim (env.interrupts w tr) as (λ (b : Bool). EndsIf (Left q) (Left q) (b, (w, tr))) [
        | true ↦ left
        | false ↦ left
      ]

  calls_unless : (r : ℕ × State) → Left q r.1 → EndsUnless etimedout (Left q) (λ rc. Left q) r
  calls_unless (rc, s) left =
      elim (rc != etimedout) as (λ (b : Bool). if b then Left q s else Left q s) [
        | true ↦ left
        | false ↦ left
      ]

  now_unread :
      (clk : ℕ) (s : State)
      → Left q s
      → EndsUnread (Left q) (λ rc. Left q) (lift (now os clk true) s)
  unfolding now
  now_unread clk (w, tr) left = go (os.clock_gettime tr clk)
    where
      go :
          (r : Ret Timespec)
          → let answer : Io (ℕ × Option Timespec) = elim r [
            | ok t ↦ pure (success, some t)
            | fail e ↦ pure (suc e, none)
          ] in
            EndsUnread (Left q) (λ rc. Left q) (lift answer (w, Event.clock_gettime clk r ∷ tr))
      go (ok t) = left
      go (fail e) = left

  cb-Left :
      (word : Word) (expected : ℕ) (d : Deadline) (s : State)
      → Left q s
      → Left q (futex_wait_cb os env q word expected d s).1
  unfolding futex_wait_cb
  cb-Left word expected d (w, tr) left = left

  futex-Waits :
      (word : Word) (expected : ℕ) (user : Option Deadline)
      → Waits os
          (check_signals os env q)
          (futex_wait_cb os env q word expected)
          (Left q)
          user
          clock_monotonic
          (λ rc. Left q)
  futex-Waits word expected user = record {
    times = now_unread (clock_of user clock_monotonic);
    calls = λ d s left.
        calls_unless (futex_wait_cb os env q word expected d s) (cb-Left word expected d s left);
    signals = signals_if;
    expires = λ d s e left. lifted_if (deadline_expired os (some d)) s left;
  }

  Fine-Held : (rc : ℕ) (s : State) → Own q s → Fine (Own q) (Held q) rc s
  Fine-Held rc s own = elim (rc == success) as (λ (b : Bool). if b then Own q s else Held q s) [
    | true ↦ own
    | false ↦ (inl own.0, own.2)
  ]

  Held-Fine : (rc : ℕ) (s : State) → rc ≢ success → Held q s → Fine (Own q) (Held q) rc s
  Held-Fine rc s ne held =
      elim (rc == success)
          as (λ (b : Bool). (b ≡ true → rc ≡ success) → if b then Own q s else Held q s) [
            | true ↦ λ e. absurd (ne (e refl))
            | false ↦ λ e. held
          ]
        (λ e. ground arith)

  chosen : (rc lrc : ℕ) → lrc ≢ success → (if lrc != success then lrc else rc) ≡ lrc
  chosen rc lrc ne = ground arith

  -- behind the lock, with its status
  relocked :
      (rc lrc : ℕ) (s : State)
      → Fine (Own q) (Left q) lrc s
      → Fine (Own q) (Held q) (if lrc != success then lrc else rc) s
  relocked rc lrc s =
      elim (lrc == success)
          as (λ (b : Bool).
            (b ≡ true → lrc ≡ success)
            → (b ≡ false → lrc ≢ success)
            → (if b then Own q s else Left q s)
            → Fine (Own q) (Held q) (if lrc != success then lrc else rc) s) [
              | true ↦ λ e n own. rw (e refl) (Fine-Held rc s own)
              | false ↦ λ e n left.
                  rw (chosen rc lrc (n refl)) (Held-Fine lrc s (n refl) (inr left.0, left.1))
            ]
        (λ e. ground arith) (λ e. ground arith)

  lock_again-Triple : (rc : ℕ) → Triple (Left q) (lock_again os env q rc) (Fine (Own q) (Held q))
  unfolding lock_again
  lock_again-Triple rc =
      Triple-bind {Q = Fine (Own q) (Left q)} (Fine (Own q) (Held q))
        (λ lrc. give (if lrc != success then lrc else rc)) (relocked rc) (fq_lock os env q)
        (fq_lock-Triple honest bound)

  wait_until-Triple :
      (fuel : ℕ) (word : Word) (expected : ℕ) (interruptible : Bool) (user : Option Deadline)
      → Triple
          (Left q)
          (wait_until os env q fuel word expected interruptible user)
          (Fine (Own q) (Held q))
  unfolding wait_until
  wait_until-Triple fuel word expected interruptible user =
      let cb = futex_wait_cb os env q word expected in
      Triple-bind {Q = λ rc. Left q} (Fine (Own q) (Held q)) (lock_again os env q) lock_again-Triple
        (blocking_wait os (check_signals os env q) cb fuel user interruptible clock_monotonic)
        (blocking_wait-Triple os (check_signals os env q) cb (futex-Waits word expected user) fuel
          interruptible (λ d s left. cb-Left word expected d s left))

  deadline_set-After :
      (fuel : ℕ) (word : Word) (expected : ℕ) (interruptible : Bool)
      (r : (ℕ × Option Deadline) × State)
      → Left q r.1
      → After
          (Fine (Own q) (Held q))
          (deadline_set os env q fuel word expected interruptible r.0 r.1)
  unfolding deadline_set
  deadline_set-After fuel word expected interruptible ((rc, none), s) left =
      lock_again-Triple rc s left
  deadline_set-After fuel word expected interruptible ((rc, some user), s) left =
      wait_until-Triple fuel word expected interruptible (some user) s left

  with_timeout-Triple :
      (fuel : ℕ) (word : Word) (expected : ℕ) (interruptible : Bool) (timeout : Option Seconds)
      → Triple
          (Left q)
          (with_timeout os env q fuel word expected interruptible timeout)
          (Fine (Own q) (Held q))
  unfolding with_timeout
  with_timeout-Triple fuel word expected interruptible (some t) (w, tr) left =
      deadline_set-After fuel word expected interruptible
        (lift (deadline_from_seconds os clock_monotonic t true) (w, tr)) left
  with_timeout-Triple fuel word expected interruptible none s left =
      wait_until-Triple fuel word expected interruptible none s left

  -- A wait of the queue comes back with the lock and a ring where it succeeds, and otherwise with the
  -- lock or behind a lock that failed.
  pub fq_wait_word-Triple :
      (fuel : ℕ) (word : Word) (opts : Opts)
      → Triple (Own q) (fq_wait_word os env q fuel word opts) (Fine (Own q) (Held q))
  unfolding fq_wait_word
  fq_wait_word-Triple fuel word opts (w, tr) own =
      let expected = futex_load (value w.mem word) in
      let rest = with_timeout os env q fuel word expected opts.interruptible opts.timeout in
      Triple-bind {Q = λ rc. Left q} (Fine (Own q) (Held q))
        (λ rc. if rc != success then give rc else rest)
        (λ rc.
          Triple-if {P = Left q} (Fine (Own q) (Held q)) (rc != success) (give rc) rest
            (λ e s left. Held-Fine rc s (ground arith) (inr left.0, left.1))
            (λ e. with_timeout-Triple fuel word expected opts.interruptible opts.timeout))
        (unlock os env q) (unlock-Left honest bound) (w, tr) (inl own.0, own.2)
