-- ===== src/Rwlock/Laws.antt =====
-- What posixipc_rwlock_init and the timed locks of src/core/posixipc_rwlock.c do.
use posixipc.Prelude.{
  ℕ, suc, ◌-◌, ◌≡◌, refl, arith, Bool, true, false, Option, none, some, List, [], ◌∷◌, ◌==◌,
  if◌then◌else◌,
}
use posixipc.Codes.{success}
use posixipc.Time.{Deadline}
use posixipc.Os.{Timespec}
use posixipc.Calls.{Log, Reply, clock_realtime}
use posixipc.Rwlock.{Call, rwlock_clock, rwlock_init, rwlock_rdlock_until, rwlock_wrlock_until}
use posixipc.Rwlock

-- the attribute objects that are initialised and not destroyed
abbrev pub attrs : Log Call → ℕ
attrs [] = 0
attrs ((Rwlock.Call.attr_init, rc) ∷ log) = if rc == success then suc (attrs log) else attrs log
attrs ((Rwlock.Call.attr_destroy, rc) ∷ log) = attrs log - 1
attrs (c ∷ log) = attrs log

-- the clock and the time that a timed lock waits by
abbrev pub waits_by : Call → Option (ℕ × Timespec)
waits_by (Rwlock.Call.clockrdlock rw clk ts) = some (clk, ts)
waits_by (Rwlock.Call.clockwrlock rw clk ts) = some (clk, ts)
waits_by (Rwlock.Call.timedrdlock rw ts) = some (clock_realtime, ts)
waits_by (Rwlock.Call.timedwrlock rw ts) = some (clock_realtime, ts)
waits_by c = none

abbrev pub waits : Log Call → List (Option (ℕ × Timespec))
waits [] = []
waits (c ∷ log) = waits_by (c.0) ∷ waits log

module _ (reply : Reply Call) where
  -- The attribute object of an init is destroyed on every path on which it was initialised.
  pub rwlock_init-attrs :
      (rw cfg : Option ℕ) (log : Log Call) → attrs (rwlock_init reply rw cfg log).1 ≡ attrs log
  unfolding rwlock_init
  rwlock_init-attrs none cfg log = refl
  rwlock_init-attrs (some rw) cfg log = ground arith

  module _ (rw : ℕ) (d : Deadline) (log : Log Call) where
    -- A timed lock by a deadline on the clock of `rwlock_clock` makes one call, which waits until the
    -- deadline's time by the deadline's clock, with the clock functions of the C library or without.
    pub rwlock_until-clock :
        (have_clocklock : Bool)
        → d.clk ≡ rwlock_clock have_clocklock
        → (waits (rwlock_rdlock_until reply have_clocklock (some rw) (some d) log).1
            ≡ some (d.clk, d.ts) ∷ waits log)
          × (waits (rwlock_wrlock_until reply have_clocklock (some rw) (some d) log).1
              ≡ some (d.clk, d.ts) ∷ waits log)
    unfolding rwlock_rdlock_until rwlock_wrlock_until rwlock_clock
    rwlock_until-clock true e = (refl, refl)
    rwlock_until-clock false e = (ground arith, ground arith)
