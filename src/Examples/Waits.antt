-- ===== src/Examples/Waits.antt =====
-- Processes that share a ring, and the calls from Python that wait for it.
use posixipc.Prelude.{
  ℕ, suc, ◌*◌, ◌≢◌, refl, arith, Bool, true, false, none, some, [], ◌∷◌, leb, length, if◌then◌else◌,
  inl, Option,
}
use posixipc.Codes.{success, etimedout, eownerdead}
use posixipc.Os.{Os, ok, Trace, Event}
use posixipc.Time.{Deadline, billion, now}
use posixipc.Time.Laws.{to_ns}
use posixipc.Queue.Ring.{contents}
use posixipc.Queue.System.{Lock, System, Step, Reach}
use posixipc.Mutex.{mutex_lock}
use posixipc.Cond.{cond_wait, cond_wait_until}
use posixipc.Bindings.Run.{After}
use posixipc.Bindings.Acquire.{Opts, nowait_opts, Key, py_false, posixipc_parse_acquire}
use posixipc.Bindings.Acquire.Laws.{Allows, posixipc_parse_acquire_lem}
use posixipc.Bindings.Wait.{blocking_wait}
use posixipc.Bindings.Wait.Ends.{Clock, Returns, blocking_wait-Returns}
use posixipc.Bindings.Ring.{QueueObject, World, Env, State, queue_cond_until_cb}
use posixipc.Bindings.Ring.Laws.{Honest}
use posixipc.Bindings.Ring.Transfer.{queue_put, queue_get, queue_put_nowait, queue_get_nowait}
use posixipc.Bindings.Ring.Transfer.Items.{PutEnd, GetEnd, queue_put_lem, queue_get_lem}
use posixipc.Bindings.Ring.Transfer.Nowait.{nowait_lem}
use posixipc.Bindings.Exchange.Ending.{Ends}
use posixipc.Examples.Rings.{three, three-IsView, one, one-IsRing}
use posixipc.Examples.Segments.{ticking}

-- a process that takes the lock and dies with it, and one that takes it over
abbrev unlocked : System
unlocked = record { lock = Lock.free; mem = one; items = contents three one }

abbrev dies :
    Reach three unlocked (record { lock = Lock.left; mem = one; items = contents three one })
dies = Reach.next (Reach.next Reach.here Step.lock) Step.die_idle

-- a parse of no arguments but `blocking=False`
posixipc_parse_acquire_lem_example :
    Allows (posixipc_parse_acquire [] ((Key.blocking, py_false) ∷ []))
posixipc_parse_acquire_lem_example = posixipc_parse_acquire_lem [] ((Key.blocking, py_false) ∷ [])

abbrev at_two : Deadline
at_two = record { clk = 1; ts = record { sec = 2; nsec = 0 } }

-- A system where each call takes a second, and a callback that sleeps for one and then says whether
-- its deadline has passed.
abbrev counting : Os
counting = record ticking {
  clock_gettime = λ tr clk. ok (record { sec = suc (length tr); nsec = 0 });
}

abbrev elapsed : ℕ × Trace → ℕ
elapsed (x, tr) = length tr * billion

abbrev sleeping : Deadline → ℕ × Trace → ℕ × (ℕ × Trace)
sleeping d (x, tr) = (
  if leb (to_ns d.ts) (suc (length tr) * billion) then etimedout else success,
  (x, Event.nanosleep 1 (ok tt) ∷ tr),
)

abbrev undisturbed : ℕ × Trace → Bool × (ℕ × Trace)
undisturbed s = (false, s)

counting-Clock : Clock counting undisturbed sleeping 1 elapsed
unfolding now
counting-Clock = record {
  reads = λ s. (omega arith, omega arith, omega arith);
  waits = λ d s same timed_out. (omega arith, ground arith);
  signals = λ s. omega arith;
}

blocking_wait-Returns_example :
    Returns counting undisturbed sleeping elapsed at_two
      (blocking_wait counting undisturbed sleeping 41 (some at_two) true 1 (0, []))
blocking_wait-Returns_example =
    blocking_wait-Returns counting undisturbed sleeping at_two counting-Clock (omega arith) true 40
      1 (0, []) (omega arith)

-- A queue on the ring `three`, whose lock is always free and whose waits are never over, with the item
-- of `one`.
abbrev shared : QueueObject
shared = record {
  flags = 16;
  put_lock = some 8;
  get_lock = some 9;
  not_full = some 16;
  not_empty = some 24;
  region = some 32;
  view = three;
  depth = 3;
  item_size = 1;
  cond_flags = 64;
}

abbrev calm : Env
calm = record {
  mutex = λ w log c. success;
  cond = λ w log c. etimedout;
  memory = λ w. one;
  interrupts = λ w tr. false;
}

calm-wait :
    (cond : Option ℕ) (w : World) → (cond_wait (calm.cond w) cond (some 8) w.conds).0 ≢ eownerdead
unfolding cond_wait
calm-wait none w = λ e. absurd (omega arith)
calm-wait (some c) w = λ e. absurd (omega arith)

calm-wait_until :
    (cond : Option ℕ) (d : Deadline) (w : World)
    → (cond_wait_until (calm.cond w) cond (some 8) (some d) w.conds).0 ≢ eownerdead
unfolding cond_wait_until
calm-wait_until none d w = λ e. absurd (omega arith)
calm-wait_until (some c) d w = λ e. absurd (omega arith)

calm-Honest : Honest ticking calm shared
unfolding mutex_lock queue_cond_until_cb
calm-Honest = record {
  locks = λ s. ((λ e. one-IsRing), λ e. absurd (ground arith));
  waits = λ cond s. ((λ e. one-IsRing), λ e. absurd (calm-wait cond s.0 e));
  times_out = λ cond d s. ((λ e. one-IsRing), λ e. absurd (calm-wait_until cond d s.0 e));
  clocks = λ tr clk. λ e. absurd (omega arith);
  view = three-IsView;
  depth = refl;
  item_size = refl;
}

abbrev start : State
start = (record { mem = one; found = one; mutexes = []; conds = [] }, [])

abbrev patient : Opts
patient = record nowait_opts { blocking = true }

queue_put_lem_example :
    After (PutEnd shared 0 (7 ∷ [])) (queue_put ticking calm shared 5 patient (7 ∷ []) start)
queue_put_lem_example = queue_put_lem calm-Honest 0 5 patient (7 ∷ []) start (refl, inl refl)

queue_get_lem_example :
    After (GetEnd shared 0 true) (queue_get ticking calm shared 5 patient true true start)
queue_get_lem_example = queue_get_lem calm-Honest 0 5 patient true true start (refl, inl refl)

nowait_lem_example :
    Ends (PutEnd shared 0 (7 ∷ [])) (queue_put_nowait ticking calm shared (7 ∷ []) start)
    × Ends (GetEnd shared 0 true) (queue_get_nowait ticking calm shared true true start)
nowait_lem_example = nowait_lem calm-Honest 0 (7 ∷ []) true true start (refl, inl refl)
