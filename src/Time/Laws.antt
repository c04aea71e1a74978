-- ===== src/Time/Laws.antt =====
-- Deadlines of src/core/posixipc_time.c as numbers of nanoseconds.
use Prim.Native.Nat.{min}
use posixipc.Prelude.{ℕ, ◌+◌, ◌*◌, ◌≤◌, ◌<◌, ◌≡◌, ◌≢◌, arith, true, ◌⊎◌}
use mathlib.Core.Logic.{◌↔◌}
use posixipc.Os.{Timespec}
use posixipc.Time.{Deadline, Seconds, billion, add_seconds, deadline_min, passed}

abbrev pub to_ns : Timespec → ℕ
to_ns ts = ts.sec * billion + ts.nsec

-- a `timespec` as the clock returns it
abbrev pub IsNormal : Timespec → Type 0
IsNormal ts = ts.nsec < billion

-- `add_seconds` adds the seconds, capped at 100,000,000, and the fraction, and carries at most once:
-- the result is normal.
pub add_seconds_lem :
    (ts : Timespec) (s : Seconds)
    → IsNormal ts
    → s.nanos < billion
    → IsNormal (add_seconds ts s)
      × (to_ns (add_seconds ts s) ≡ to_ns ts + min s.whole 100_000_000 * billion + s.nanos)
unfolding add_seconds
add_seconds_lem ts s h k = ground arith

-- The last comparison of `posixipc_deadline_expired` is the order of the two times.
pub passed_iff :
    (now ts : Timespec)
    → IsNormal now
    → IsNormal ts
    → (passed now ts ≡ true) ↔ (to_ns ts ≤ to_ns now)
unfolding passed
passed_iff now ts h k = ground arith

-- `posixipc_deadline_min` of two deadlines on one clock returns one of them, the earlier; on two
-- clocks it returns the first.
pub deadline_min_lem :
    (a b : Deadline)
    → IsNormal a.ts
    → IsNormal b.ts
    → ((a.clk ≢ b.clk) × (deadline_min a b ≡ a))
      ⊎ ((a.clk ≡ b.clk)
          × (to_ns (deadline_min a b).ts ≡ min (to_ns a.ts) (to_ns b.ts))
          × ((deadline_min a b ≡ a) ⊎ (deadline_min a b ≡ b)))
unfolding deadline_min
deadline_min_lem a b h k = ground arith
