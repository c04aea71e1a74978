-- ===== src/Sem/Laws.antt =====
-- What the timed wait of src/core/posixipc_sem.c waits for.
use posixipc.Prelude.{ℕ, ◌≡◌, refl, arith, Bool, true, false, Option, none, some, List, [], ◌∷◌}
use posixipc.Time.{Deadline}
use posixipc.Os.{Timespec}
use posixipc.Calls.{Log, Reply, clock_realtime}
use posixipc.Sem.{Call, sem_clock, sem_wait_until}
use posixipc.Sem

-- the clock and the time that a timed wait waits by
abbrev pub waits_by : Call → Option (ℕ × Timespec)
waits_by (Sem.Call.clockwait s clk ts) = some (clk, ts)
waits_by (Sem.Call.timedwait s ts) = some (clock_realtime, ts)
waits_by c = none

abbrev pub waits : Log Call → List (Option (ℕ × Timespec))
waits [] = []
waits (c ∷ log) = waits_by (c.0) ∷ waits log

-- A timed wait by a deadline on the clock of `sem_clock` makes one call, which waits until the
-- deadline's time by the deadline's clock, with the clock functions of the C library or without.
pub sem_wait_until-clock :
    (reply : Reply Call) (s : ℕ) (d : Deadline) (log : Log Call) (have_clockwait : Bool)
    → d.clk ≡ sem_clock have_clockwait
    → waits (sem_wait_until reply have_clockwait (some s) (some d) log).1
      ≡ some (d.clk, d.ts) ∷ waits log
unfolding sem_wait_until sem_clock
sem_wait_until-clock reply s d log true e = refl
sem_wait_until-clock reply s d log false e = ground arith
