-- ===== src/Examples/Locks.antt =====
-- A mutex object from Python, of a mutex that checks its owner and is not taken by others.
use posixipc.Prelude.{
  ℕ, ◌<◌, ltb, ◌≡◌, ◌≢◌, refl, arith, Bool, true, false, none, some, [], ◌∷◌, if◌then◌else◌,
  is_null, Option,
}
use mathlib.Core.Logic.{◌↔◌}
use posixipc.Codes.{success, ebusy, eperm, eownerdead}
use posixipc.Calls.{Reply}
use posixipc.Mutex
use posixipc.Mutex.{mutex_unlock}
use posixipc.Bindings.Run.{After}
use posixipc.Bindings.Acquire.{Key, py_false}
use posixipc.Bindings.Lock.{
  MutexObject, State, mutex_acquire, mutex_enter, mutex_release, mutex_exit, mutex_close,
}
use posixipc.Bindings.Lock.Laws.{holds, takes, Balanced, Acquired, ErrorChecks}
use posixipc.Bindings.Lock.Keeping.{Released, lock_ops_lem}
use posixipc.Rwlock
use posixipc.Bindings.Acquire.{nowait_opts}
use posixipc.Bindings.Sharing
use posixipc.Bindings.Sharing.{rwlock_acquire_mode, rwlock_release}
use posixipc.Bindings.Sharing.Laws.{Mode, Taken, Given, rwlock_ops_lem}
use posixipc.Examples.Segments.{ticking}

-- EBUSY and EPERM by the calls that were made
abbrev checking : MutexObject → Reply Mutex.Call
checking m log c =
    if ltb 0 (holds log)
    then (if takes c then ebusy else success)
    else if takes c
    then success
    else eperm

abbrev quiet : State → Bool × State
quiet s = (false, s)

checking-refuses :
    (m : MutexObject) (c : Mutex.Call)
    → takes c ≡ true
    → 0 < holds m.mutexes
    → (checking m m.mutexes c ≢ success) × (checking m m.mutexes c ≢ eownerdead)
checking-refuses m c takes_it held = (λ e. ground arith, λ e. ground arith)

checking-unlocks :
    (m : MutexObject) (p : Option ℕ)
    → is_null p ≡ false
    → ((mutex_unlock (checking m) p m.mutexes).0 ≡ success) ↔ (0 < holds m.mutexes)
unfolding mutex_unlock
checking-unlocks m none bound = absurd (ground arith)
checking-unlocks m (some p) bound = ((λ e. ground arith), λ e. ground arith)

checking-ErrorChecks : ErrorChecks ticking checking none quiet
checking-ErrorChecks = record {
  refuses = checking-refuses;
  unlocks = λ m. checking-unlocks m m.lock;
  callback = λ f same. absurd (ground arith);
  handlers = λ s. refl;
  clocks = λ tr clk e. absurd (omega arith);
}

-- a bound object that is not locked
abbrev idle : State
idle = (record { lock = some 8; region = some 32; flags = 16; locked = false; mutexes = [] }, [])

lock_ops_lem_example :
    After Acquired
      (mutex_acquire ticking checking true none quiet 3 [] ((Key.blocking, py_false) ∷ []) idle)
    × After Acquired (mutex_enter ticking checking true none quiet 3 idle)
    × After Released (mutex_release ticking checking true none quiet idle)
    × After Released (mutex_exit ticking checking true none quiet idle)
    × Balanced (mutex_close ticking checking true none quiet idle)
lock_ops_lem_example =
    lock_ops_lem true checking-ErrorChecks 3 [] ((Key.blocking, py_false) ∷ []) idle refl

-- a read-write lock whose calls all succeed
abbrev free : Reply Rwlock.Call
free log c = success

abbrev calm : Sharing.State → Bool × Sharing.State
calm s = (false, s)

rwlock_ops_lem_example :
    After
      (Taken Mode.writing [])
      (rwlock_acquire_mode ticking free true (some 8) calm 3 nowait_opts true ([], []))
    × Given [] (rwlock_release ticking free true (some 8) calm ([], []))
rwlock_ops_lem_example =
    rwlock_ops_lem ticking free true (some 8) calm (λ s. refl) [] 3 nowait_opts true ([], []) refl
