-- ===== src/Cond/Laws.antt =====
-- What posixipc_cond_init of src/core/posixipc_cond.c does.
use mathlib.Core.Option
use posixipc.Prelude.{
  ℕ, suc, ◌-◌, ◌≡◌, refl, arith, Bool, true, Option, none, some, [], ◌∷◌, ◌==◌, if◌then◌else◌,
}
use posixipc.Codes.{success}
use posixipc.Calls.{Log, Reply, clock_realtime}
use posixipc.Cond.{Call, cond_clock, init_clock, cond_init}
use posixipc.Cond

-- the attribute objects that are initialised and not destroyed
abbrev pub attrs : Log Call → ℕ
attrs [] = 0
attrs ((Cond.Call.attr_init, rc) ∷ log) = if rc == success then suc (attrs log) else attrs log
attrs ((Cond.Call.attr_destroy, rc) ∷ log) = attrs log - 1
attrs (c ∷ log) = attrs log

-- the clock of the attribute object: that of the last setclock since it was initialised
abbrev pub attr_clock : Log Call → ℕ
attr_clock [] = clock_realtime
attr_clock ((Cond.Call.attr_init, rc) ∷ log) = clock_realtime
attr_clock ((Cond.Call.attr_setclock clk, rc) ∷ log) = if rc == success then clk else attr_clock log
attr_clock (c ∷ log) = attr_clock log

module _ (reply : Reply Call) where
  -- The attribute object of an init is destroyed on every path on which it was initialised.
  pub cond_init-attrs :
      (have_setclock : Bool) (c cfg : Option ℕ) (log : Log Call)
      → attrs (cond_init reply have_setclock c cfg log).1 ≡ attrs log
  unfolding cond_init
  cond_init-attrs have_setclock none cfg log = refl
  cond_init-attrs have_setclock (some c) cfg log = ground arith

  -- Where the C library has setclock, an init that succeeds gives the condition variable the clock
  -- that `cond_clock` tells for its flags.
  pub cond_init-clock :
      (c : ℕ) (cfg : Option ℕ) (log : Log Call)
      → (cond_init reply true (some c) cfg log).0 ≡ success
      → attr_clock (cond_init reply true (some c) cfg log).1 ≡ cond_clock (Option.get_or cfg 0)
  unfolding cond_init cond_clock
  cond_init-clock c cfg log fine = ground arith
