-- ===== src/Bindings/Wait/Ends.antt =====
-- That `posixipc_blocking_wait` of src/bindings/py_wait.c returns once the caller's deadline has passed.
use Prim.Native.Nat.{min}
use posixipc.Prelude.{
  ℕ, zero, suc, ◌+◌, ◌*◌, ◌≤◌, ◌<◌, ◌≡◌, ◌≢◌, refl, arith, Bool, true, false, Option, none, some,
  ◌!=◌, if◌then◌else◌, ◌∷◌,
}
use mathlib.Core.Logic.{◌↔◌}
use posixipc.Codes.{success, etimedout, error_interrupted}
use posixipc.Os.{Os, Io, Trace, Timespec, Event, Ret, ok, fail, pure}
use posixipc.Os
use posixipc.Time.{Deadline, now, deadline_expired, passed}
use posixipc.Time.Laws.{to_ns, IsNormal, passed_iff}
use posixipc.Bindings.Run.{Run, After, give, plain, ◌>>=◌}
use posixipc.Bindings.Wait.{
  slice_ns, slice_of, lift, round_end, after_call, after_now, wait_slices, blocking_wait,
}
use posixipc.Bindings.Wait.Laws.{
  slice_of_lem, EndsUnless, EndsIf, EndsUnread, Waits, wait_slices-Triple,
}

-- whether there was fuel enough
abbrev pub ended : {S A : Type 0} → Option A × S → Bool
ended (none, s) = false
ended (some a, s) = true

-- The clock was read, and the time is the one that it shows afterwards.
abbrev pub Reads : {S : Type 0} → (S → ℕ) → ℕ → (ℕ × Option Timespec) × S → Type 0
Reads clock before ((rc, none), s) = ⊥
Reads clock before ((rc, some t), s) = IsNormal t × (to_ns t ≡ clock s) × (before ≤ clock s)

module _ {X : Type 0} (os : Os) (check_signals : X × Trace → Bool × (X × Trace))
    (fn : Deadline → X × Trace → ℕ × (X × Trace)) where
  -- `clock` is what the clock `clk` shows, in nanoseconds. It can be read and does not go back,
  -- and a callback that times out has waited for its deadline.
  pub record Clock (clk : ℕ) (clock : X × Trace → ℕ) : Type 0 where
    pub reads : (s : X × Trace) → Reads clock (clock s) (lift (now os clk true) s)
    pub waits :
        (d : Deadline) (s : X × Trace)
        → d.clk ≡ clk
        → (fn d s).0 ≡ etimedout
        → (clock s ≤ clock (fn d s).1) × (to_ns d.ts ≤ clock (fn d s).1)
    pub signals : (s : X × Trace) → clock s ≤ clock (check_signals s).1

  -- `posixipc_deadline_expired` compares a deadline with the clock.
  expires :
      {clk : ℕ} {clock : X × Trace → ℕ} (c : Clock clk clock) (ts : Timespec) (s : X × Trace)
      → IsNormal ts
      → let (r, s') = lift (deadline_expired os (some (record { clk = clk; ts = ts }))) s in
        (clock s ≤ clock s') × ((r ≡ true) ↔ (to_ns ts ≤ clock s'))
  unfolding now deadline_expired
  expires {clk} {clock} c ts s normal = go (os.clock_gettime s.1 clk) (c.reads s)
    where
      go :
          (r : Ret Timespec)
          → let answer : Io (ℕ × Option Timespec) = elim r [
            | ok t ↦ pure (success, some t)
            | fail e ↦ pure (suc e, none)
          ] in
            let s' : X × Trace = (s.0, Event.clock_gettime clk r ∷ s.1) in
            Reads clock (clock s) (lift answer s')
            → let (b, s'') =
                lift
                  (Os.◌>>=◌ answer (λ ((rc, now) : ℕ × Option Timespec). elim now [
                    | none ↦ pure true
                    | some t ↦ pure (passed t ts)
                  ]))
                  s' in
              (clock s ≤ clock s'') × ((b ≡ true) ↔ (to_ns ts ≤ clock s''))
      go (ok t) (n, e, le) = (le, rw (← e) (passed_iff t ts n normal))
      go (fail f) h = absurd h

  module _ {clock : X × Trace → ℕ} (user : Deadline) (c : Clock user.clk clock)
      (normal : IsNormal user.ts) (again : Run (X × Trace) ℕ) (from : ℕ)
      (h : (s : X × Trace)
        → from ≤ clock s
        → clock s < to_ns user.ts
        → ended (again s) ≡ true) where
    round_end-ended :
        (s : X × Trace)
        → from ≤ clock s
        → ended (round_end os check_signals fn again (some user) s) ≡ true
    unfolding round_end
    round_end-ended s later =
        go (lift (deadline_expired os (some user)) s) (expires c user.ts s normal)
      where
        go :
            (r : Bool × (X × Trace))
            → (clock s ≤ clock r.1) × ((r.0 ≡ true) ↔ (to_ns user.ts ≤ clock r.1))
            → ended ((if r.0 then give etimedout else again) r.1) ≡ true
        go (true, s') f = refl
        go (false, s') (le, iff) = h s' (omega arith) (ground arith)

    signalled :
        (r : Bool × (X × Trace))
        → from ≤ clock r.1
        → ended (
            (if r.0
                then give error_interrupted
                else round_end os check_signals fn again (some user))
              r.1)
          ≡ true
    signalled (true, s) later = refl
    signalled (false, s) later = round_end-ended s later

    after_call-ended :
        (r : ℕ × (X × Trace))
        → (r.0 ≡ etimedout → from ≤ clock r.1)
        → ended (after_call os check_signals fn again (some user) r.0 r.1) ≡ true
    unfolding after_call
    after_call-ended (rc, s) f = go (rc != etimedout) (λ e. ground arith)
      where
        go :
            (b : Bool)
            → (b ≡ false → rc ≡ etimedout)
            → ended (
                (if b
                    then give rc
                    else (plain check_signals >>= λ e.
                        if e
                        then give error_interrupted
                        else round_end os check_signals fn again (some user)))
                  s)
              ≡ true
        go true e = refl
        go false e =
            let le = f (e refl) in
            let signals = c.signals s in signalled (check_signals s) (omega arith)

    after_now-ended :
        (clk before : ℕ) (r : (ℕ × Option Timespec) × (X × Trace))
        → Reads clock before r
        → from ≤ min (to_ns user.ts) (before + slice_ns)
        → ended (after_now os check_signals fn again (some user) clk r.0 r.1) ≡ true
    unfolding after_now
    after_now-ended clk before ((rc, none), s) reads enough = refl
    after_now-ended clk before ((rc, some t), s) (n, e, le) enough =
        let (same, value) = slice_of_lem user clk t normal n in
        after_call-ended (fn (slice_of (some user) clk t) s) (λ timed_out.
          let (later, waited) = c.waits (slice_of (some user) clk t) s same timed_out in
          omega arith)

  wait_slices-ended :
      {clock : X × Trace → ℕ} (user : Deadline)
      → Clock user.clk clock
      → IsNormal user.ts
      → (n clk : ℕ) (s : X × Trace) → to_ns user.ts ≤ clock s + n * slice_ns
      → ended (wait_slices os check_signals fn (suc n) (some user) clk s) ≡ true
  unfolding wait_slices
  wait_slices-ended {clock} user c normal zero clk s h =
      after_now-ended user c normal (wait_slices os check_signals fn zero (some user) clk)
        (to_ns user.ts) (λ s' later early. absurd (omega arith)) clk (clock s)
        (lift (now os user.clk true) s) (c.reads s) (ground arith)
  wait_slices-ended {clock} user c normal (suc n) clk s h =
      after_now-ended user c normal (wait_slices os check_signals fn (suc n) (some user) clk)
        (min (to_ns user.ts) (clock s + slice_ns))
        (λ s' later early. wait_slices-ended user c normal n clk s' (ground arith)) clk (clock s)
        (lift (now os user.clk true) s) (c.reads s) (omega arith)

  -- ETIMEDOUT comes after the deadline.
  abbrev pub Late : (X × Trace → ℕ) → Deadline → ℕ → X × Trace → Type 0
  Late clock user rc s = rc ≡ etimedout → to_ns user.ts ≤ clock s

  module _ {clock : X × Trace → ℕ} (user : Deadline) (c : Clock user.clk clock)
      (normal : IsNormal user.ts) where
    unread :
        (before : ℕ) (r : (ℕ × Option Timespec) × (X × Trace))
        → Reads clock before r
        → EndsUnread (λ s. Unit {0}) (Late clock user) r
    unread before ((rc, none), s) h = absurd h
    unread before ((rc, some t), s) h = tt

    called : (r : ℕ × (X × Trace)) → EndsUnless etimedout (λ s. Unit {0}) (Late clock user) r
    called (rc, s) = go (rc != etimedout) (λ e. ground arith)
      where
        go :
            (b : Bool)
            → (b ≡ true → rc ≢ etimedout)
            → (if b then Late clock user rc s else Unit {0})
        go true ne = λ e. absurd (ne refl e)
        go false ne = tt

    signals_end :
        (r : Bool × (X × Trace)) → EndsIf (λ s. Unit {0}) (Late clock user error_interrupted) r
    signals_end (true, s) = λ e. absurd (omega arith)
    signals_end (false, s) = tt

    expired :
        (r : Bool × (X × Trace))
        → ((r.0 ≡ true) ↔ (to_ns user.ts ≤ clock r.1))
        → EndsIf (λ s. Unit {0}) (Late clock user etimedout) r
    expired (true, s) iff = λ e. iff.0 refl
    expired (false, s) iff = tt

    waits-Late :
        (clk : ℕ) → Waits os check_signals fn (λ s. Unit {0}) (some user) clk (Late clock user)
    waits-Late clk = record {
      times = λ s i. unread (clock s) _ (c.reads s);
      calls = λ d s i. called (fn d s);
      signals = λ s i. signals_end (check_signals s);
      expires = λ d s same i.
          let is : user ≡ d = cc in
          rw (← is)
            (expired (lift (deadline_expired os (some user)) s) (expires c user.ts s normal).1);
    }

  -- a wait that ended, with ETIMEDOUT only after the deadline
  abbrev pub Returns : (X × Trace → ℕ) → Deadline → Option ℕ × (X × Trace) → Type 0
  Returns clock user (none, s) = ⊥
  Returns clock user (some rc, s) = Late clock user rc s

  returns :
      (clock : X × Trace → ℕ) (user : Deadline) (r : Option ℕ × (X × Trace))
      → ended r ≡ true
      → After (Late clock user) r
      → Returns clock user r
  returns clock user (none, s) fuel after = absurd (ground arith)
  returns clock user (some rc, s) fuel after = after

  -- A wait with a deadline returns, whatever the callback does: with one round for each 50 ms up to the
  -- deadline, and one more, the fuel suffices. It returns ETIMEDOUT only after the deadline. It is
  -- assumed that the clock can be read and does not go back, and that a callback that times out has
  -- waited for the deadline that it was given.
  pub blocking_wait-Returns :
      {clock : X × Trace → ℕ} (user : Deadline)
      → Clock user.clk clock
      → IsNormal user.ts
      → (interruptible : Bool) (n clk : ℕ) (s : X × Trace) → to_ns user.ts ≤ clock s + n * slice_ns
      → Returns clock user
          (blocking_wait os check_signals fn (suc n) (some user) interruptible clk s)
  unfolding blocking_wait
  blocking_wait-Returns {clock} user c normal false n clk s h =
      λ timed_out. (c.waits user s refl timed_out).1
  blocking_wait-Returns {clock} user c normal true n clk s h =
      returns clock user (wait_slices os check_signals fn (suc n) (some user) clk s)
        (wait_slices-ended user c normal n clk s h)
        (wait_slices-Triple os check_signals fn (waits-Late user c normal clk) (suc n) s tt)
