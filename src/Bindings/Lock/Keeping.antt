-- ===== src/Bindings/Lock/Keeping.antt =====
-- The operations of a mutex object of src/bindings/py_mutex.c keep its flag true to the lock.
use Prim.Native.Nat.{bit_and}
use posixipc.Prelude.{
  ℕ, ◌≡◌, ◌≢◌, refl, ◌∙◌, arith, Bool, true, false, not, Option, none, some, List, [], ◌∷◌, is_null,
  ◌==◌, ◌!=◌, ◌&&◌, if◌then◌else◌,
}
use posixipc.Codes.{success, eperm}
use posixipc.Os.{Os, Trace}
use posixipc.Calls.{Log, Reply}
use posixipc.Mutex.{mutex_unlock, mutex_destroy}
use posixipc.Mutex
use posixipc.Bindings.Errors.{Raised, Outcome, returned, raised, posixipc_err}
use posixipc.Bindings.Run.{After, Triple, Triple-bind, Triple-if, give, plain, ◌>>◌}
use posixipc.Bindings.Acquire.{Value, Key, Partial}
use posixipc.Bindings.Lock.{
  MutexObject, State, flag_closed, flag_owns_storage, mutex_check_open, read_open, acquire_opts,
  set_locked, with_opts, mutex_acquire, released, release_open, mutex_release, entered, mutex_enter,
  mutex_exit, destroy_storage, closed_of, mutex_close,
}
use posixipc.Bindings.Lock.Laws.{holds, holds-unlock, Balanced, Acquired, ErrorChecks}
use posixipc.Bindings.Lock.Taking.{with_opts-Triple}

is_bound : (m : MutexObject) → mutex_check_open m ≡ none → is_null m.lock ≡ false
unfolding mutex_check_open
is_bound m checked = ground arith

read_open-raises :
    (e : Raised) (r : Outcome Partial) → (e' : Option Raised) × (read_open (some e) r ≡ raised e')
unfolding read_open
read_open-raises e (returned p) = (some e, refl)
read_open-raises e (raised e') = (e', refl)

-- of an object that is not open, no options are read
closed-raises :
    (e : Raised) (args : List Value) (keys : List (Key × Value))
    → (e' : Option Raised) × (acquire_opts (some e) args keys ≡ raised e')
unfolding acquire_opts
closed-raises e [] keys = read_open-raises e _
closed-raises e (v ∷ []) keys = read_open-raises e _
closed-raises e (v ∷ w ∷ more) keys = (some Raised.type_error, refl)

holds-destroy :
    (reply : Reply Mutex.Call) (m : Option ℕ) (log : Log Mutex.Call)
    → holds (mutex_destroy reply m log).1 ≡ holds log
unfolding mutex_destroy
holds-destroy reply none log = refl
holds-destroy reply (some m) log = refl

Balanced-if :
    (c : Bool) (a b : State)
    → (c ≡ true → Balanced a)
    → (c ≡ false → Balanced b)
    → Balanced (if c then a else b)
Balanced-if true a b h k = h refl
Balanced-if false a b h k = k refl

-- behind a release: without the lock, or as it was
abbrev pub Released : Outcome Bool → State → Type 0
Released (returned b) (m, tr) = (holds m.mutexes ≡ 0) × (m.locked ≡ false)
Released (raised e) s = Balanced s

module _ {os : Os} {reply : MutexObject → Reply Mutex.Call} (have_clocklock : Bool)
    {on_owner_died : Option (State → Bool × State)} {signals : State → Bool × State}
    (checks : ErrorChecks os reply on_owner_died signals) where
  acquire-Triple :
      (fuel : ℕ) (args : List Value) (keys : List (Key × Value))
      → Triple Balanced
          (mutex_acquire os reply have_clocklock on_owner_died signals fuel args keys)
          Acquired
  unfolding mutex_acquire
  acquire-Triple fuel args keys (m, tr) balanced = go (mutex_check_open m) (is_bound m)
    where
      go :
          (checked : Option Raised)
          → (checked ≡ none → is_null m.lock ≡ false)
          → After Acquired (
              with_opts os reply have_clocklock on_owner_died signals fuel
                (acquire_opts checked args keys)
                (m, tr))
      go none bound =
          with_opts-Triple have_clocklock checks fuel (acquire_opts none args keys) (m, tr)
            (bound refl, balanced)
      go (some e) bound = let (e', same) = closed-raises e args keys in rw same balanced

  entered-After :
      (out : Outcome Bool) (s : State)
      → Acquired out s
      → After Acquired (entered os reply have_clocklock on_owner_died signals out s)
  unfolding entered
  entered-After (returned false) s h = h
  entered-After (returned true) s h = h
  entered-After (raised e) s h = h

  enter-Triple :
      (fuel : ℕ)
      → Triple Balanced (mutex_enter os reply have_clocklock on_owner_died signals fuel) Acquired
  unfolding mutex_enter
  enter-Triple fuel =
      Triple-bind {Q = Acquired} Acquired (entered os reply have_clocklock on_owner_died signals)
        entered-After (mutex_acquire os reply have_clocklock on_owner_died signals fuel [] [])
        (acquire-Triple fuel [] [])

  released-After :
      (rc : ℕ) (s : State)
      → (rc ≡ success → holds s.0.mutexes ≡ 0)
      → (rc ≢ success → Balanced s)
      → After Released (released os reply have_clocklock on_owner_died signals rc s)
  unfolding released
  released-After rc s fine failed =
      Triple-if {P = λ s'. s' ≡ s} Released (rc == eperm)
        (give (raised (some Raised.runtime_error))) _
        (λ e s' same. rw same (failed (λ e'. ground arith)))
        (λ e.
          Triple-if {P = λ s'. s' ≡ s} Released (rc != success) (give (raised (posixipc_err rc)))
            (plain (set_locked os reply have_clocklock on_owner_died signals false)
              >> give (returned true))
            (λ e' s' same. rw same (failed (λ e''. ground arith)))
            (λ e' s' same. rw same (fine (ground arith), refl)))
        s refl

  release_open-Triple :
      (checked : Option Raised) (m : MutexObject) (tr : Trace)
      → (checked ≡ none → is_null m.lock ≡ false)
      → Balanced (m, tr)
      → After Released (release_open os reply have_clocklock on_owner_died signals checked (m, tr))
  unfolding release_open
  release_open-Triple (some e) m tr bound balanced = balanced
  release_open-Triple none m tr bound balanced =
      let owner = checks.unlocks m (bound refl) in
      let counts = holds-unlock (reply m) m.lock m.mutexes in
      released-After (mutex_unlock (reply m) m.lock m.mutexes).0
        (record m { mutexes = (mutex_unlock (reply m) m.lock m.mutexes).1 }, tr)
        (λ e. let locked = owner.0 e in ground arith) (λ ne. ground arith)

  release-Triple :
      Triple Balanced (mutex_release os reply have_clocklock on_owner_died signals) Released
  unfolding mutex_release
  release-Triple (m, tr) balanced =
      release_open-Triple (mutex_check_open m) m tr (is_bound m) balanced

  exit-Triple :
      (s : State)
      → Balanced s
      → After Released (mutex_exit os reply have_clocklock on_owner_died signals s)
  unfolding mutex_exit
  exit-Triple (m, tr) balanced =
      elim (m.locked)
          as (λ (b : Bool).
            (m.locked ≡ b)
            → After Released (
                if b
                then mutex_release os reply have_clocklock on_owner_died signals (m, tr)
                else give (returned true) (m, tr))) [
                  | true ↦ λ e. release-Triple (m, tr) balanced
                  | false ↦ λ e. (ground arith, e)
                ]
        refl

  destroy_storage-Balanced :
      (s : State)
      → is_null s.0.lock ≡ false
      → Balanced s
      → Balanced (destroy_storage os reply have_clocklock on_owner_died signals s)
  unfolding destroy_storage
  destroy_storage-Balanced (m, tr) bound balanced =
      let unlocked = mutex_unlock (reply m) m.lock m.mutexes in
      Balanced-if m.locked _ _
        (λ locked.
          let fine = (checks.unlocks m bound).1 (ground arith) in
          holds-destroy _ m.lock unlocked.1
          ∙ ground (arith, holds-unlock (reply m) m.lock m.mutexes))
        (λ unlocked'. holds-destroy (reply m) m.lock m.mutexes ∙ balanced)

  closed_of-Balanced :
      (s : State)
      → Balanced s
      → Balanced (closed_of os reply have_clocklock on_owner_died signals s)
  unfolding closed_of
  closed_of-Balanced (m, tr) balanced = balanced

  close-Balanced :
      (s : State)
      → Balanced s
      → Balanced (mutex_close os reply have_clocklock on_owner_died signals s)
  unfolding mutex_close
  close-Balanced (m, tr) balanced =
      Balanced-if (bit_and m.flags flag_closed != 0) (m, tr) _ (λ e. balanced)
        (λ e.
          closed_of-Balanced
            (if bit_and m.flags flag_owns_storage != 0 && not (is_null m.lock)
              then destroy_storage os reply have_clocklock on_owner_died signals (m, tr)
              else (m, tr))
            (Balanced-if (bit_and m.flags flag_owns_storage != 0 && not (is_null m.lock))
              (destroy_storage os reply have_clocklock on_owner_died signals (m, tr)) (m, tr)
              (λ owns. destroy_storage-Balanced (m, tr) (ground arith) balanced)
              (λ owns. balanced)))

  -- Every operation of a mutex object keeps its flag `locked` true to whether the calls made of the
  -- mutex hold it: an acquire that returns True, or an enter, holds it, a release that succeeds, or an
  -- exit, does not, and after False, an exception or a close the flag still tells. It is assumed that
  -- the mutex checks its owner, that the callback of a dead owner and the signal handlers leave the
  -- object alone, and that no clock fails with EOWNERDEAD.
  pub lock_ops_lem :
      (fuel : ℕ) (args : List Value) (keys : List (Key × Value)) (s : State)
      → Balanced s
      → After Acquired
          (mutex_acquire os reply have_clocklock on_owner_died signals fuel args keys s)
        × After Acquired (mutex_enter os reply have_clocklock on_owner_died signals fuel s)
        × After Released (mutex_release os reply have_clocklock on_owner_died signals s)
        × After Released (mutex_exit os reply have_clocklock on_owner_died signals s)
        × Balanced (mutex_close os reply have_clocklock on_owner_died signals s)
  lock_ops_lem fuel args keys s balanced = (
    acquire-Triple fuel args keys s balanced,
    enter-Triple fuel s balanced,
    release-Triple s balanced,
    exit-Triple s balanced,
    close-Balanced s balanced,
  )
