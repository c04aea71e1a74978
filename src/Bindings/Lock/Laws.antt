-- ===== src/Bindings/Lock/Laws.antt =====
-- The flag `locked` of a mutex object of src/bindings/py_mutex.c.
use posixipc.Prelude.{
  ℕ, suc, ◌-◌, ◌<◌, ◌≡◌, ◌≢◌, refl, ◌∙◌, arith, Bool, true, false, Option, none, some, [], ◌∷◌,
  is_null, ◌⊎◌, inl, inr, ◌==◌, ◌!=◌, ◌||◌, if◌then◌else◌,
}
use mathlib.Core.Logic.{◌↔◌}
use posixipc.Codes.{success, einval, etimedout, ebusy, edeadlk, eownerdead, enotrecoverable}
use posixipc.Os.{Os, Trace, status_of}
use posixipc.Calls.{Log, Reply, return, call, clock_realtime}
use posixipc.Time.{Deadline}
use posixipc.Mutex.{mutex_lock, mutex_trylock, mutex_unlock, mutex_consistent, mutex_lock_until}
use posixipc.Mutex
use posixipc.Bindings.Errors.{Raised, Outcome, returned, raised, posixipc_err}
use posixipc.Bindings.Run.{Triple, Triple-if, give, plain, ◌>>◌}
use posixipc.Bindings.Lock.{
  MutexObject, State, refused, set_locked, give_back, after_callback, owner_died, mutex_after_lock,
}

-- how often the lock is held by the calls
abbrev pub holds : Log Mutex.Call → ℕ
holds [] = 0
holds ((Mutex.Call.lock m, rc) ∷ log) =
    if rc == success || rc == eownerdead then suc (holds log) else holds log
holds ((Mutex.Call.trylock m, rc) ∷ log) =
    if rc == success || rc == eownerdead then suc (holds log) else holds log
holds ((Mutex.Call.clocklock m clk ts, rc) ∷ log) =
    if rc == success || rc == eownerdead then suc (holds log) else holds log
holds ((Mutex.Call.timedlock m ts, rc) ∷ log) =
    if rc == success || rc == eownerdead then suc (holds log) else holds log
holds ((Mutex.Call.unlock m, rc) ∷ log) = if rc == success then holds log - 1 else holds log
holds (c ∷ log) = holds log

-- the calls that take the lock where they succeed
abbrev pub takes : Mutex.Call → Bool
takes (Mutex.Call.lock m) = true
takes (Mutex.Call.trylock m) = true
takes (Mutex.Call.clocklock m clk ts) = true
takes (Mutex.Call.timedlock m ts) = true
takes c = false

-- `rc` and the log are those of a call that may take the lock, or of none
abbrev pub Tries : Reply Mutex.Call → Log Mutex.Call → ℕ × Log Mutex.Call → Type 0
Tries reply log (rc, log') =
    (holds log' ≡ (if rc == success || rc == eownerdead then suc (holds log) else holds log))
    × (rc ≡ success ⊎ rc ≡ eownerdead → (c : Mutex.Call) × (takes c ≡ true) × (reply log c ≡ rc))

-- EINVAL takes nothing
einval-takes : {A : Type 0} → einval ≡ success ⊎ einval ≡ eownerdead → A
einval-takes (inl e) = absurd (omega arith)
einval-takes (inr e) = absurd (omega arith)

module _ (reply : Reply Mutex.Call) (log : Log Mutex.Call) where
  pub lock-Tries : (m : Option ℕ) → Tries reply log (mutex_lock reply m log)
  unfolding mutex_lock
  lock-Tries none = (refl, einval-takes)
  lock-Tries (some m) = (refl, λ e. (Mutex.Call.lock m, refl, refl))

  pub trylock-Tries : (m : Option ℕ) → Tries reply log (mutex_trylock reply m log)
  unfolding mutex_trylock
  trylock-Tries none = (refl, einval-takes)
  trylock-Tries (some m) = (refl, λ e. (Mutex.Call.trylock m, refl, refl))

  pub lock_until-Tries :
      (have_clocklock : Bool) (m : Option ℕ) (d : Deadline)
      → Tries reply log (mutex_lock_until reply have_clocklock m (some d) log)
  unfolding mutex_lock_until
  lock_until-Tries have_clocklock none d = (refl, einval-takes)
  lock_until-Tries true (some m) d = (refl, λ e. (Mutex.Call.clocklock m d.clk d.ts, refl, refl))
  lock_until-Tries false (some m) d =
      elim (d.clk != clock_realtime)
        as (λ (b : Bool).
          Tries reply log
            ((if b then return einval else call reply (Mutex.Call.timedlock m d.ts)) log)) [
              | true ↦ (refl, einval-takes)
              | false ↦ (refl, λ e. (Mutex.Call.timedlock m d.ts, refl, refl))
            ]

pub holds-unlock :
    (reply : Reply Mutex.Call) (m : Option ℕ) (log : Log Mutex.Call)
    → holds (mutex_unlock reply m log).1
      ≡ (if (mutex_unlock reply m log).0 == success then holds log - 1 else holds log)
unfolding mutex_unlock
holds-unlock reply none log = refl
holds-unlock reply (some m) log = refl

holds-consistent :
    (reply : Reply Mutex.Call) (m : Option ℕ) (log : Log Mutex.Call)
    → holds (mutex_consistent reply m log).1 ≡ holds log
unfolding mutex_consistent
holds-consistent reply none log = refl
holds-consistent reply (some m) log = refl

-- The flag says whether the lock is held.
abbrev pub Balanced : State → Type 0
Balanced (m, tr) = holds m.mutexes ≡ (if m.locked then 1 else 0)

-- taken, and the flag not yet set; and with the flag
abbrev pub Fresh : State → Type 0
Fresh (m, tr) = (is_null m.lock ≡ false) × (holds m.mutexes ≡ 1)

abbrev pub Owned : State → Type 0
Owned (m, tr) = (is_null m.lock ≡ false) × (holds m.mutexes ≡ 1) × (m.locked ≡ true)

-- behind a try
abbrev pub Tried : ℕ → State → Type 0
Tried rc s =
    (rc ≡ success ⊎ rc ≡ eownerdead → Fresh s) × (rc ≢ success → rc ≢ eownerdead → Balanced s)

-- behind `mutex_acquire`: True with the lock
abbrev pub Acquired : Outcome Bool → State → Type 0
Acquired (returned true) (m, tr) = (holds m.mutexes ≡ 1) × (m.locked ≡ true)
Acquired (returned false) s = Balanced s
Acquired (raised e) s = Balanced s

Acquired-if :
    (c : Bool) (a b : Outcome Bool) (s : State)
    → Acquired a s
    → Acquired b s
    → Acquired (if c then a else b) s
Acquired-if true a b s h k = h
Acquired-if false a b s h k = k

pub refused-Acquired : (rc : ℕ) (s : State) → Balanced s → Acquired (refused rc) s
unfolding refused
refused-Acquired rc s h =
    Acquired-if (rc == enotrecoverable) (raised (some Raised.not_recoverable)) _ s h (
      Acquired-if (rc == etimedout || rc == ebusy) (returned false) _ s h (
        Acquired-if (rc == edeadlk) (raised (some Raised.runtime_error)) (raised (posixipc_err rc))
          s h h))

-- What the C library promises of an error-checking mutex, by the calls that were made of it: while it
-- is held it is not taken again, and an unlock succeeds exactly while it is held. The callback and the
-- signal handlers leave the object alone.
pub record ErrorChecks (os : Os) (reply : MutexObject → Reply Mutex.Call)
    (on_owner_died : Option (State → Bool × State)) (signals : State → Bool × State) : Type 0 where
  pub refuses :
      (m : MutexObject) (c : Mutex.Call)
      → takes c ≡ true
      → 0 < holds m.mutexes
      → (reply m m.mutexes c ≢ success) × (reply m m.mutexes c ≢ eownerdead)
  pub unlocks :
      (m : MutexObject)
      → is_null m.lock ≡ false
      → ((mutex_unlock (reply m) m.lock m.mutexes).0 ≡ success) ↔ (0 < holds m.mutexes)
  pub callback : (f : State → Bool × State) → on_owner_died ≡ some f → (s : State) → (f s).1.0 ≡ s.0
  pub handlers : (s : State) → (signals s).1.0 ≡ s.0
  -- no clock has an owner
  pub clocks : (tr : Trace) (clk : ℕ) → status_of (os.clock_gettime tr clk) ≢ eownerdead

module _ {os : Os} {reply : MutexObject → Reply Mutex.Call} (have_clocklock : Bool)
    {on_owner_died : Option (State → Bool × State)} {signals : State → Bool × State}
    (checks : ErrorChecks os reply on_owner_died signals) where
  give_back-Triple :
      (e : Option Raised)
      → Triple Owned (give_back os reply have_clocklock on_owner_died signals e) Acquired
  give_back-Triple e (m, tr) (bound, held, locked) =
      let fine = (checks.unlocks m bound).1 (omega arith) in
      ground (arith, fine, holds-unlock (reply m) m.lock m.mutexes)

  after_callback-Triple :
      (b : Bool)
      → Triple Owned (after_callback os reply have_clocklock on_owner_died signals b) Acquired
  unfolding after_callback
  after_callback-Triple false s owned = give_back-Triple (some Raised.pending) s owned
  after_callback-Triple true (m, tr) (bound, held, locked) =
      Triple-if {P = Owned} Acquired ((mutex_consistent (reply m) m.lock m.mutexes).0 != success)
        (give_back os reply have_clocklock on_owner_died signals
          (posixipc_err (mutex_consistent (reply m) m.lock m.mutexes).0))
        (give (returned true))
        (λ e. give_back-Triple (posixipc_err (mutex_consistent (reply m) m.lock m.mutexes).0))
        (λ e s owned. (owned.1, owned.2))
        (record m { mutexes = (mutex_consistent (reply m) m.lock m.mutexes).1 }, tr)
        (bound, holds-consistent (reply m) m.lock m.mutexes ∙ held, locked)

  owner_died-Triple :
      (f : Option (State → Bool × State))
      → on_owner_died ≡ f
      → Triple Owned (owner_died os reply have_clocklock on_owner_died signals f) Acquired
  unfolding owner_died
  owner_died-Triple none e s owned = give_back-Triple (some Raised.type_error) s owned
  owner_died-Triple (some f) e s owned =
      after_callback-Triple (f s).0 (f s).1 (rw (checks.callback f e s) owned)

  -- the object that is locked
  Tried-Locked :
      (rc : ℕ) (s : State)
      → Tried rc s
      → rc ≡ success ⊎ rc ≡ eownerdead
      → Owned (set_locked os reply have_clocklock on_owner_died signals true s).1
  Tried-Locked rc (m, tr) (fresh, other) e = let (bound, held) = fresh e in (bound, held, refl)

  pub mutex_after_lock-Triple :
      (rc : ℕ)
      → Triple
          (Tried rc)
          (mutex_after_lock os reply have_clocklock on_owner_died signals rc)
          Acquired
  unfolding mutex_after_lock
  mutex_after_lock-Triple rc =
      let lock = plain (set_locked os reply have_clocklock on_owner_died signals true) in
      Triple-if {P = Tried rc} Acquired (rc == success) (lock >> give (returned true)) _
        (λ e s t.
          let (bound, held, locked) = Tried-Locked rc s t (inl (ground arith)) in (held, locked))
        (λ e.
          Triple-if {P = Tried rc} Acquired (rc == eownerdead)
            (lock >> owner_died os reply have_clocklock on_owner_died signals on_owner_died)
            (give (refused rc))
            (λ e' s t.
              owner_died-Triple on_owner_died refl
                (set_locked os reply have_clocklock on_owner_died signals true s).1
                (Tried-Locked rc s t (inr (ground arith))))
            (λ e' s t. refused-Acquired rc s (t.1 (ground arith) (ground arith))))
