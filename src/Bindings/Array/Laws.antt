-- ===== src/Bindings/Array/Laws.antt =====
-- How often a mutex of an array of src/bindings/py_array.c is held.
use posixipc.Prelude.{
  ℕ, suc, ◌-◌, ◌<◌, ◌≡◌, ◌≢◌, refl, arith, Bool, true, false, Option, some, [], ◌∷◌, ◌==◌, ◌||◌,
  ◌&&◌, if◌then◌else◌,
}
use posixipc.Codes.{success, eownerdead}
use posixipc.Os.{Os, Trace, status_of}
use posixipc.Calls.{Log, Reply}
use posixipc.Time.{Deadline}
use posixipc.Mutex.{mutex_lock, mutex_trylock, mutex_unlock, mutex_consistent, mutex_lock_until}
use posixipc.Mutex
use posixipc.Bindings.Errors.{Outcome, returned, raised}
use posixipc.Bindings.Wait.Counting.{Misses, counting_wait-Triple}
use posixipc.Bindings.Wait.Counting
use posixipc.Bindings.Lock.{refused}
use posixipc.Bindings.Array.{ArrayObject, State}

abbrev pub gains : ℕ → ℕ → ℕ
gains rc k = if rc == success || rc == eownerdead then suc k else k

-- how often the mutex at `p` is held by the calls
abbrev pub held : ℕ → Log Mutex.Call → ℕ
held p [] = 0
held p ((Mutex.Call.lock m, rc) ∷ log) = if m == p then gains rc (held p log) else held p log
held p ((Mutex.Call.trylock m, rc) ∷ log) = if m == p then gains rc (held p log) else held p log
held p ((Mutex.Call.clocklock m clk ts, rc) ∷ log) =
    if m == p then gains rc (held p log) else held p log
held p ((Mutex.Call.timedlock m ts, rc) ∷ log) =
    if m == p then gains rc (held p log) else held p log
held p ((Mutex.Call.unlock m, rc) ∷ log) =
    if m == p && rc == success then held p log - 1 else held p log
held p (c ∷ log) = held p log

itself : (p : ℕ) → (p == p) ≡ true
itself p = ground arith

module _ (p : ℕ) (reply : Reply Mutex.Call) (log : Log Mutex.Call) where
  abbrev Gains : ℕ × Log Mutex.Call → Type 0
  Gains (rc, log') = held p log' ≡ gains rc (held p log)

  pub lock-Gains : Gains (mutex_lock reply (some p) log)
  unfolding mutex_lock
  lock-Gains = rw (itself p) refl

  pub trylock-Gains : Gains (mutex_trylock reply (some p) log)
  unfolding mutex_trylock
  trylock-Gains = rw (itself p) refl

  pub until-Gains :
      (have_clocklock : Bool) (d : Deadline)
      → Gains (mutex_lock_until reply have_clocklock (some p) (some d) log)
  unfolding mutex_lock_until
  until-Gains true d = rw (itself p) refl
  until-Gains false d = ground (arith, itself p)

  pub unlock-held :
      held p (mutex_unlock reply (some p) log).1
      ≡ (if (mutex_unlock reply (some p) log).0 == success then held p log - 1 else held p log)
  unfolding mutex_unlock
  unlock-held = ground (arith, itself p)

  pub consistent-held : held p (mutex_consistent reply (some p) log).1 ≡ held p log
  unfolding mutex_consistent
  consistent-held = refl

abbrev pub holds_at : ℕ → ArrayObject → ℕ
holds_at p a = held p a.mutexes

abbrev pub At : ℕ → ℕ → State → Type 0
At p = Counting.At (holds_at p)

abbrev pub Tried : ℕ → ℕ → ℕ → State → Type 0
Tried p = Counting.Tried (holds_at p) gains

-- behind an acquire from `k` on: held once more with True
abbrev pub Acquired : ℕ → ℕ → Outcome Bool → State → Type 0
Acquired p k (returned true) (a, tr) = holds_at p a ≡ suc k
Acquired p k (returned false) (a, tr) = holds_at p a ≡ k
Acquired p k (raised e) (a, tr) = holds_at p a ≡ k

-- behind a release
abbrev pub Released : ℕ → ℕ → Outcome Bool × State → Type 0
Released p k (returned b, (a, tr)) = holds_at p a ≡ k - 1
Released p k (raised e, (a, tr)) = holds_at p a ≡ k

pub refused-Acquired : (p k rc : ℕ) (s : State) → At p k s → Acquired p k (refused rc) s
unfolding refused
refused-Acquired p k rc s h = ground arith

-- What the mutexes and the callbacks promise: an unlock of a mutex that is held succeeds, and the
-- callback of a dead owner and the signal handlers leave the mutexes alone.
pub record Honest (os : Os) (reply : ArrayObject → Reply Mutex.Call)
    (on_owner_died : Option (State → Bool × State)) (signals : State → Bool × State) : Type 0 where
  pub unlocks :
      (a : ArrayObject) (p : ℕ)
      → 0 < holds_at p a
      → reply a a.mutexes (Mutex.Call.unlock p) ≡ success
  pub callback :
      (f : State → Bool × State) (s : State)
      → on_owner_died ≡ some f
      → (f s).1.0.mutexes ≡ s.0.mutexes
  pub handlers : (s : State) → (signals s).1.0.mutexes ≡ s.0.mutexes
  -- no clock has an owner
  pub clocks : (tr : Trace) (clk : ℕ) → status_of (os.clock_gettime tr clk) ≢ eownerdead
