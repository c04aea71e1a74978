-- ===== src/Bindings/Wait/Counting.antt =====
-- A wait of src/bindings/py_wait.c for a lock of which it is known what is held: its callback takes the lock once more
-- or not at all, and nothing else does.
use posixipc.Prelude.{
  ℕ, suc, ◌≡◌, refl, ap, ◌∙◌, arith, Bool, true, false, Option, none, some, ◌∷◌, ◌!=◌,
  if◌then◌else◌,
}
use posixipc.Codes.{success, etimedout, error_interrupted}
use posixipc.Os.{Os, Io, Trace, Event, Timespec, Ret, ok, fail, pure}
use posixipc.Time.{Deadline, now, deadline_expired}
use posixipc.Bindings.Run.{Triple}
use posixipc.Bindings.Wait.{lift, clock_of, blocking_wait}
use posixipc.Bindings.Wait.Laws.{EndsUnless, EndsIf, EndsUnread, Waits, blocking_wait-Triple}

-- what is held, and behind a call that gave a status: `gains rc k` is what is held then
module _ {X K : Type 0} (count : X → K) where
  abbrev pub At : K → X × Trace → Type 0
  At k (x, tr) = count x ≡ k

  abbrev pub Tried : (ℕ → K → K) → K → ℕ → X × Trace → Type 0
  Tried gains k rc (x, tr) = count x ≡ gains rc k

-- a status that takes nothing
pub record Misses {K : Type 0} (os : Os) (gains : ℕ → K → K) : Type 0 where
  pub timeout : (k : K) → gains etimedout k ≡ k
  pub signal : (k : K) → gains error_interrupted k ≡ k
  pub clock :
      (tr : Trace) (clk e : ℕ) (k : K) → os.clock_gettime tr clk ≡ fail e → gains (suc e) k ≡ k

module _ {X K : Type 0} (count : X → K) {os : Os} {gains : ℕ → K → K} (misses : Misses os gains)
    (signals : X × Trace → Bool × (X × Trace))
    (handlers : (s : X × Trace) → count (signals s).1.0 ≡ count s.0)
    (fn : Deadline → X × Trace → ℕ × (X × Trace)) (k : K)
    (calls : (d : Deadline) (s : X × Trace)
      → At count k s
      → let (rc, s') = fn d s in Tried count gains k rc s') where
  call-ends :
      (r : ℕ × (X × Trace))
      → Tried count gains k r.0 r.1
      → EndsUnless etimedout (At count k) (Tried count gains k) r
  call-ends (rc, s) h =
      elim (rc != etimedout)
          as (λ (b : Bool).
            (b ≡ false → rc ≡ etimedout) → if b then Tried count gains k rc s else At count k s) [
              | true ↦ λ e. h
              | false ↦ λ e. h ∙ ap (λ (n : ℕ). gains n k) (e refl) ∙ misses.timeout k
            ]
        (λ e. ground arith)

  lifted-ends :
      (m : Io Bool) (s : X × Trace)
      → At count k s
      → EndsIf (At count k) (Tried count gains k etimedout) (lift m s)
  lifted-ends m (x, tr) h =
      elim ((m tr).0)
        as (λ (b : Bool). EndsIf (At count k) (Tried count gains k etimedout) (b, (x, (m tr).1))) [
          | true ↦ rw (misses.timeout k) h
          | false ↦ h
        ]

  signals-end :
      (r : Bool × (X × Trace))
      → At count k r.1
      → EndsIf (At count k) (Tried count gains k error_interrupted) r
  signals-end (true, s) h = rw (misses.signal k) h
  signals-end (false, s) h = h

  now-ends :
      (clk : ℕ) (s : X × Trace)
      → At count k s
      → EndsUnread (At count k) (Tried count gains k) (lift (now os clk true) s)
  unfolding now
  now-ends clk (x, tr) h = go (os.clock_gettime tr clk) (λ e same. misses.clock tr clk e k same)
    where
      go :
          (r : Ret Timespec)
          → ((e : ℕ) → r ≡ fail e → gains (suc e) k ≡ k)
          → let answer : Io (ℕ × Option Timespec) = elim r [
            | ok t ↦ pure (success, some t)
            | fail e ↦ pure (suc e, none)
          ] in
            EndsUnread
              (At count k)
              (Tried count gains k)
              (lift answer (x, Event.clock_gettime clk r ∷ tr))
      go (ok t) miss = h
      go (fail e) miss = rw (miss e refl) h

  counting-Waits :
      (user : Option Deadline) (clk : ℕ)
      → Waits os signals fn (At count k) user clk (Tried count gains k)
  counting-Waits user clk = record {
    times = now-ends (clock_of user clk);
    calls = λ d s h. call-ends (fn d s) (calls d s h);
    signals = λ s h. signals-end (signals s) (handlers s ∙ h);
    expires = λ d s e h. lifted-ends (deadline_expired os (some d)) s h;
  }

  -- A wait takes the lock as its status says.
  pub counting_wait-Triple :
      (fuel : ℕ) (user : Option Deadline) (interruptible : Bool) (clk : ℕ)
      → Triple
          (At count k)
          (blocking_wait os signals fn fuel user interruptible clk)
          (Tried count gains k)
  counting_wait-Triple fuel user interruptible clk =
      blocking_wait-Triple os signals fn (counting-Waits user clk) fuel interruptible calls
