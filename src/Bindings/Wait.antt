-- ===== src/Bindings/Wait.antt =====
-- src/bindings/py_wait.c: `posixipc_blocking_wait` and what it calls. The state is
-- the caller's with the calls made so far, `check_signals` is `PyErr_CheckSignals() < 0`, and `fn` the
-- callback with its argument. The loop runs on fuel.
pub mod Laws
pub mod Ends
pub mod Counting
use posixipc.Prelude.{
  ℕ, zero, suc, ◌+◌, ◌-◌, Bool, true, false, Option, none, some, leb, ◌==◌, ◌!=◌, if◌then◌else◌,
}
use posixipc.Codes.{success, etimedout, error_interrupted}
use posixipc.Os.{Os, Io, Trace, Timespec}
use posixipc.Time.{Deadline, billion, deadline_min, now, deadline_expired}
use posixipc.Calls.{clock_monotonic, clock_realtime}
use posixipc.Bindings.Run.{Run, give, plain, ◌>>=◌, ◌>>◌}

-- `posixipc_mutex_clock`, by `posixipc_have_mutex_clocklock()`
pub mutex_clock : Bool → ℕ
mutex_clock have_clocklock = if have_clocklock then clock_monotonic else clock_realtime

-- `add_ns`
pub add_ns : Timespec → ℕ → Timespec
add_ns ts ns =
    let nsec = ts.nsec + ns in
    if leb billion nsec
    then record { sec = ts.sec + 1; nsec = nsec - billion }
    else record { sec = ts.sec; nsec = nsec }

abbrev pub slice_ns : ℕ
slice_ns = 50_000_000

-- the deadline of one call of the callback, at the time `t`
pub slice_of : Option Deadline → ℕ → Timespec → Deadline
unfolding add_ns
slice_of none clk t = record { clk = clk; ts = add_ns t slice_ns }
slice_of (some user) clk t = deadline_min user (record { clk = user.clk; ts = add_ns t slice_ns })

-- the clock that the loop reads
abbrev pub clock_of : Option Deadline → ℕ → ℕ
clock_of none clk = clk
clock_of (some user) clk = user.clk

-- for a caller without a deadline that no signal interrupts
abbrev pub far_off : ℕ → Deadline
far_off clk = record { clk = clk; ts = record { sec = 0x7fffffff; nsec = 0 } }

-- what posixipc_time.c does, on a state with a part of the caller's
abbrev pub lift : {X A : Type 0} → Io A → X × Trace → A × (X × Trace)
lift m (x, tr) = let (a, tr') = m tr in (a, (x, tr'))

module _ {X : Type 0} (os : Os) (check_signals : X × Trace → Bool × (X × Trace))
    (fn : Deadline → X × Trace → ℕ × (X × Trace)) where
  -- the end of a round: ETIMEDOUT for a deadline that has passed, or `again`
  round_end : Run (X × Trace) ℕ → Option Deadline → Run (X × Trace) ℕ
  round_end again none = again
  round_end again (some user) = do
    expired ← plain (lift (deadline_expired os (some user)))
    if expired then give etimedout else again

  -- behind the callback
  after_call : Run (X × Trace) ℕ → Option Deadline → ℕ → Run (X × Trace) ℕ
  unfolding round_end
  after_call again user rc = if rc != etimedout then give rc else do
    interrupted ← plain check_signals
    if interrupted then give error_interrupted else round_end again user

  -- behind `posixipc_now`, with its status and the time
  after_now : Run (X × Trace) ℕ → Option Deadline → ℕ → ℕ × Option Timespec → Run (X × Trace) ℕ
  unfolding after_call slice_of
  after_now again user clk (rc, none) = give rc
  after_now again user clk (rc, some t) = do
    rc' ← plain (fn (slice_of user (clock_of user clk) t))
    after_call again user rc'

  -- the loop
  pub wait_slices : ℕ → Option Deadline → ℕ → Run (X × Trace) ℕ
  unfolding after_now
  wait_slices zero user clk s = (none, s)
  wait_slices (suc fuel) user clk s =
      (plain (lift (now os (clock_of user clk) true))
          >>= after_now (wait_slices fuel user clk) user clk)
        s

  -- `none` for a NULL `user`
  unfoldable pub blocking_wait : ℕ → Option Deadline → Bool → ℕ → Run (X × Trace) ℕ
  unfolding wait_slices
  blocking_wait fuel user true clk = wait_slices fuel user clk
  blocking_wait fuel none false clk = plain (fn (far_off clk))
  blocking_wait fuel (some user) false clk = plain (fn user)
