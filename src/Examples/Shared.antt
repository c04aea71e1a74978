-- ===== src/Examples/Shared.antt =====
-- Objects from Python that share memory: a futex queue, a semaphore and an array of mutexes.
use posixipc.Prelude.{refl, arith, Bool, true, false, none, some, [], ◌∷◌, inl, ◌==◌, if◌then◌else◌}
use posixipc.Codes.{success, eagain, eperm}
use posixipc.Calls.{Reply}
use posixipc.Mutex
use posixipc.Mutex.{mutex_lock}
use posixipc.Sem
use posixipc.Futexq.{FutexqMemory}
use posixipc.Bindings.Run.{After}
use posixipc.Bindings.Acquire.{Opts, nowait_opts}
use posixipc.Bindings.Exchange.Ending.{Ends}
use posixipc.Bindings.Lock.Laws.{holds}
use posixipc.Bindings.FutexRing.{FutexQueueObject, World, Env, take_lock}
use posixipc.Bindings.FutexRing.Transfer.{fq_put, fq_get, fq_put_nowait, fq_get_nowait}
use posixipc.Bindings.FutexRing
use posixipc.Bindings.FutexRing.Laws as FutexLaws
use posixipc.Bindings.FutexRing.Transfer.Items.{PutEnd, GetEnd, fq_ops_lem}
use posixipc.Bindings.FutexRing.Transfer.Nowait.{fq_nowait_lem}
use posixipc.Bindings.Semaphore.{SemaphoreObject, Times, sem_acquire, sem_release}
use posixipc.Bindings.Semaphore
use posixipc.Bindings.Semaphore.Units.{Took, Gave, semaphore_ops_lem}
use posixipc.Bindings.Array.{ArrayObject, lock_at, array_lock_index, array_release_index}
use posixipc.Bindings.Array
use posixipc.Bindings.Array.Laws.{holds_at, Acquired, Released}
use posixipc.Bindings.Array.Laws as ArrayLaws
use posixipc.Bindings.Array.Holding.{array_ops_lem}
use posixipc.Examples.Rings.{three, three-IsView, one, one-IsRing}
use posixipc.Examples.Segments.{ticking}

-- a futex queue on the ring `three` with the item of `one`, whose lock checks its owner
abbrev asleep : FutexQueueObject
asleep = record {
  flags = 16;
  put_lock = some 8;
  get_lock = some 16;
  region = some 32;
  view = record { not_full = 40; not_empty = 44; view = three };
  depth = 3;
  item_size = 1;
}

abbrev words : FutexqMemory
words = record { not_full = 0; not_empty = 0; ring = one }

abbrev owned : World → Reply Mutex.Call
owned w log (Mutex.Call.unlock m) = if holds log == 0 then eperm else success
owned w log c = success

abbrev drowsy : Env
drowsy = record {
  mutex = owned;
  futex = λ w log c. eagain;
  memory = λ w. words;
  interrupts = λ w tr. false;
}

drowsy-Honest : FutexLaws.Honest ticking drowsy asleep
unfolding mutex_lock
drowsy-Honest = record {
  locks = λ s. ((λ e. one-IsRing), λ e. absurd (ground arith));
  refuses = λ w m h. ground arith;
  unlocks = λ w m h. ground arith;
  view = three-IsView;
  depth = refl;
  item_size = refl;
}

abbrev idle : FutexRing.State
idle = (record { mem = words; found = one; mutexes = []; futexes = [] }, [])

abbrev patient : Opts
patient = record nowait_opts { blocking = true }

fq_ops_lem_example :
    After (PutEnd asleep (7 ∷ [])) (fq_put ticking drowsy asleep 5 patient (7 ∷ []) idle)
    × After (GetEnd asleep) (fq_get ticking drowsy asleep 5 patient true true idle)
fq_ops_lem_example = fq_ops_lem drowsy-Honest 5 patient (7 ∷ []) true idle (refl, inl refl)

fq_nowait_lem_example :
    Ends (PutEnd asleep (7 ∷ [])) (fq_put_nowait ticking drowsy asleep (7 ∷ []) idle)
    × Ends (GetEnd asleep) (fq_get_nowait ticking drowsy asleep true true idle)
fq_nowait_lem_example = fq_nowait_lem drowsy-Honest (7 ∷ []) true idle (refl, inl refl)

-- a semaphore whose calls all succeed
abbrev plenty : SemaphoreObject → Reply Sem.Call
plenty o log c = success

abbrev undisturbed : Semaphore.State → Bool × Semaphore.State
undisturbed s = (false, s)

abbrev units : SemaphoreObject
units = record { sem = some 8; region = some 32; flags = 16; sems = [] }

semaphore_ops_lem_example :
    After (Took 0 0) (sem_acquire ticking plenty true undisturbed 3 [] [] (units, []))
    × Gave 0 0 2 (sem_release ticking plenty true undisturbed (Times.given 2) (units, []))
semaphore_ops_lem_example =
    semaphore_ops_lem ticking plenty true undisturbed (λ s. refl) 3 [] [] (Times.given 2) units []
      (omega arith)

-- an array of two mutexes that are free
abbrev pair : ArrayObject
pair = record {
  locks = some (8 ∷ 16 ∷ []);
  region = some 32;
  flags = 16;
  count = 2;
  locked = false;
  mutexes = [];
}

abbrev unowned : ArrayObject → Reply Mutex.Call
unowned a log c = success

abbrev steady : Array.State → Bool × Array.State
steady s = (false, s)

unowned-Honest : ArrayLaws.Honest ticking unowned none steady
unowned-Honest = record {
  unlocks = λ a p h. refl;
  callback = λ f s same. absurd (ground arith);
  handlers = λ s. refl;
  clocks = λ tr clk e. absurd (omega arith);
}

array_ops_lem_example :
    After
      (Acquired 16 0)
      (array_lock_index ticking unowned true none steady true 3 1 nowait_opts (pair, []))
    × Released 16 0 (array_release_index ticking unowned true none steady true 1 (pair, []))
unfolding lock_at
array_ops_lem_example = array_ops_lem true true unowned-Honest 16 3 1 nowait_opts pair [] refl
