-- ===== src/Bindings/Wait/Laws.antt =====
-- When `posixipc_blocking_wait` of src/bindings/py_wait.c returns, and what its callback waits for.
use Prim.Native.Nat.{min}
use posixipc.Prelude.{
  ℕ, zero, suc, ◌+◌, ◌≡◌, refl, ap, ◌∙◌, arith, Bool, true, false, Option, none, some, ◌!=◌, inl,
  inr, if◌then◌else◌,
}
use posixipc.Codes.{etimedout, error_interrupted}
use posixipc.Os.{Os, Trace, Timespec}
use posixipc.Time.{Deadline, now, deadline_expired}
use posixipc.Time.Laws.{to_ns, IsNormal, deadline_min_lem}
use posixipc.Bindings.Run.{Run, After, Triple, give, plain, ◌>>=◌}
use posixipc.Bindings.Wait.{
  add_ns, slice_ns, slice_of, clock_of, lift, far_off, round_end, after_call, after_now,
  wait_slices, blocking_wait,
}

add_ns_lem :
    (t : Timespec)
    → IsNormal t
    → IsNormal (add_ns t slice_ns) × (to_ns (add_ns t slice_ns) ≡ to_ns t + slice_ns)
unfolding add_ns
add_ns_lem t h = ground arith

-- The deadline of a call of the callback is on the clock of the caller's deadline, at the earlier of
-- that deadline and 50 ms after the time that was read.
pub slice_of_lem :
    (user : Deadline) (clk : ℕ) (t : Timespec)
    → IsNormal user.ts
    → IsNormal t
    → ((slice_of (some user) clk t).clk ≡ user.clk)
      × (to_ns (slice_of (some user) clk t).ts ≡ min (to_ns user.ts) (to_ns t + slice_ns))
unfolding slice_of
slice_of_lem user clk t h k =
    let late : Deadline = record { clk = user.clk; ts = add_ns t slice_ns } in
    let (normal, value) = add_ns_lem t k in
    elim (deadline_min_lem user late h normal) [
      | inl (ne, e) ↦ absurd (ne refl)
      | inr (e, m, inl a) ↦ (ap (λ (d : Deadline). d.clk) a, m ∙ ap (min (to_ns user.ts)) value)
      | inr (e, m, inr b) ↦ (ap (λ (d : Deadline). d.clk) b, m ∙ ap (min (to_ns user.ts)) value)
    ]

-- what holds of a status and a state: `Q` where the status ends the wait, `I` where it goes on
abbrev pub EndsUnless : {S : Type 0} → ℕ → (S → Type 0) → (ℕ → S → Type 0) → ℕ × S → Type 0
EndsUnless go I Q (rc, s) = if rc != go then Q rc s else I s

abbrev pub EndsIf : {S : Type 0} → (S → Type 0) → (S → Type 0) → Bool × S → Type 0
EndsIf I Q (true, s) = Q s
EndsIf I Q (false, s) = I s

abbrev pub EndsUnread :
    {S : Type 0} → (S → Type 0) → (ℕ → S → Type 0) → (ℕ × Option Timespec) × S → Type 0
EndsUnread I Q ((rc, none), s) = Q rc s
EndsUnread I Q ((rc, some t), s) = I s

module _ {X : Type 0} (os : Os) (check_signals : X × Trace → Bool × (X × Trace))
    (fn : Deadline → X × Trace → ℕ × (X × Trace)) where
  -- What a caller of the wait has to know to conclude `Q` of its status and the state after it, where
  -- `I` holds before it and between the rounds.
  pub record Waits (I : X × Trace → Type 0) (user : Option Deadline) (clk : ℕ)
      (Q : ℕ → X × Trace → Type 0) : Type 0 where
    pub times : (s : X × Trace) → I s → EndsUnread I Q (lift (now os (clock_of user clk) true) s)
    pub calls : (d : Deadline) (s : X × Trace) → I s → EndsUnless etimedout I Q (fn d s)
    pub signals : (s : X × Trace) → I s → EndsIf I (Q error_interrupted) (check_signals s)
    pub expires :
        (d : Deadline) (s : X × Trace)
        → user ≡ some d
        → I s
        → EndsIf I (Q etimedout) (lift (deadline_expired os (some d)) s)

  module _ {I : X × Trace → Type 0} {user : Option Deadline} {clk : ℕ} {Q : ℕ → X × Trace → Type 0}
      (w : Waits I user clk Q) (again : Run (X × Trace) ℕ) (h : Triple I again Q) where
    choose :
        (rc : ℕ) (r : Bool × (X × Trace))
        → EndsIf I (Q rc) r
        → After Q ((plain (λ (s : X × Trace). r) >>= λ e. if e then give rc else again) r.1)
    choose rc (true, s) q = q
    choose rc (false, s) i = h s i

    round_end-Triple :
        (u : Option Deadline) → user ≡ u → Triple I (round_end os check_signals fn again u) Q
    unfolding round_end
    round_end-Triple none e s i = h s i
    round_end-Triple (some d) e s i =
        choose etimedout (lift (deadline_expired os (some d)) s) (w.expires d s e i)

    signalled :
        (r : Bool × (X × Trace))
        → EndsIf I (Q error_interrupted) r
        → After Q (
            (plain (λ (s : X × Trace). r) >>= λ e.
            if e then give error_interrupted else round_end os check_signals fn again user)
              r.1)
    signalled (true, s) q = q
    signalled (false, s) i = round_end-Triple user refl s i

    after_call-After :
        (r : ℕ × (X × Trace))
        → EndsUnless etimedout I Q r
        → After Q (after_call os check_signals fn again user r.0 r.1)
    unfolding after_call
    after_call-After (rc, s) h =
        elim (rc != etimedout)
            as (λ (b : Bool).
              (if b then Q rc s else I s)
              → After Q (
                  (if b
                      then give rc
                      else (plain check_signals >>= λ e.
                          if e
                          then give error_interrupted
                          else round_end os check_signals fn again user))
                    s)) [ true ↦ λ q. q | false ↦ λ i. signalled (check_signals s) (w.signals s i) ]
          h

    after_now-After :
        (r : (ℕ × Option Timespec) × (X × Trace))
        → EndsUnread I Q r
        → After Q (after_now os check_signals fn again user clk r.0 r.1)
    unfolding after_now
    after_now-After ((rc, none), s) q = q
    after_now-After ((rc, some t), s) i =
        after_call-After (fn (slice_of user (clock_of user clk) t) s)
          (w.calls (slice_of user (clock_of user clk) t) s i)

  module _ {I : X × Trace → Type 0} {user : Option Deadline} {clk : ℕ} {Q : ℕ → X × Trace → Type 0}
      (w : Waits I user clk Q) where
    -- Where the fuel suffices, an interruptible wait ends with what its caller has to know of the callback,
    -- the clock and the signals.
    pub wait_slices-Triple : (fuel : ℕ) → Triple I (wait_slices os check_signals fn fuel user clk) Q
    unfolding wait_slices
    wait_slices-Triple zero s i = tt
    wait_slices-Triple (suc fuel) s i =
        after_now-After w (wait_slices os check_signals fn fuel user clk) (wait_slices-Triple fuel)
          (lift (now os (clock_of user clk) true) s) (w.times s i)

    pub blocking_wait-Triple :
        (fuel : ℕ) (interruptible : Bool)
        → ((d : Deadline) (s : X × Trace) → I s → Q (fn d s).0 (fn d s).1)
        → Triple I (blocking_wait os check_signals fn fuel user interruptible clk) Q
    unfolding blocking_wait
    blocking_wait-Triple fuel true direct s i = wait_slices-Triple fuel s i
    blocking_wait-Triple fuel false direct s i =
        elim user
          as (λ (u : Option Deadline).
            After Q (blocking_wait os check_signals fn fuel u false clk s)) [
              | none ↦ direct (far_off clk) s i
              | some d ↦ direct d s i
            ]
