-- ===== src/Bindings/FutexObject/Interrupted.antt =====
-- A signal in the wait of a futex object of src/bindings/py_linux.c.
use posixipc.Prelude.{ℕ, ◌≡◌, refl, ap, Bool, true, false, none, some, ◌∷◌}
use posixipc.Codes.{eintr, etimedout}
use posixipc.Os.{Os, Trace}
use posixipc.Calls.{Reply, clock_monotonic}
use posixipc.Futex.{futex_wait}
use posixipc.Futex.Laws.{futex_wait-deadline}
use posixipc.Futex
use posixipc.Bindings.Errors.{returned}
use posixipc.Bindings.Acquire.{Opts}
use posixipc.Bindings.Wait.{far_off, blocking_wait}
use posixipc.Bindings.FutexObject.{
  FutexObject, State, futex_wait_cb, wait_ended, wait_until, wait_for, wait_opts,
}

-- the wait of an object without a deadline, as the system is asked for it
abbrev pub asked : FutexObject → ℕ → Futex.Call
asked o expected = Futex.Call.wait o.address expected (some ((far_off clock_monotonic).ts)) true

module _ (os : Os) (reply : FutexObject → Reply Futex.Call) (signals : State → Bool × State) where
  interrupted-cb :
      (expected : ℕ) (o : FutexObject) (tr : Trace)
      → reply o o.futexes (asked o expected) ≡ eintr
      → futex_wait_cb os reply signals expected (far_off clock_monotonic) (o, tr)
        ≡ (etimedout, (record o { futexes = (asked o expected, eintr) ∷ o.futexes }, tr))
  unfolding futex_wait_cb
  interrupted-cb expected o tr e =
      rw
        (futex_wait-deadline (reply o) o.address expected 0 (far_off clock_monotonic) false
          o.futexes)
        (rw e refl)

  -- A wait that blocks, has no timeout and is not interruptible returns False, as one that timed out,
  -- where a signal interrupts the wait of the system, whatever the object, and however long it waited.
  pub wait_gives_up :
      (fuel expected : ℕ) (zero positive : Bool) (o : FutexObject) (tr : Trace)
      → reply o o.futexes (asked o expected) ≡ eintr
      → let opts : Opts = record {
        timeout = none;
        zero_timeout = zero;
        positive_timeout = positive;
        blocking = true;
        interruptible = false;
      } in
        wait_opts os reply signals fuel expected (returned opts) (o, tr) ≡ (
          some (returned false),
          (record o { futexes = (asked o expected, eintr) ∷ o.futexes }, tr),
        )
  unfolding wait_opts wait_for wait_until wait_ended blocking_wait
  wait_gives_up fuel expected zero positive o tr e =
      ap (λ (r : ℕ × State). (some (wait_ended os reply signals r.0), r.1))
        (interrupted-cb expected o tr e)
