-- ===== src/Cond.antt =====
-- src/core/posixipc_cond.c. `cfg` is the flags of the configuration, `none` for NULL;
-- `have_setclock` is POSIXIPC_HAVE_PTHREAD_CONDATTR_SETCLOCK.
pub mod Laws
use mathlib.Core.Option
use Prim.Native.Nat.{bit_and}
use posixipc.Prelude.{
  ℕ, Bool, not, ◌||◌, Option, none, some, List, [], ◌∷◌, ◌==◌, ◌!=◌, if◌then◌else◌,
}
use posixipc.Codes.{success, einval}
use posixipc.Config.{Config}
use posixipc.Layout.{kind_size, kind_cond}
use posixipc.Time.{Deadline}
use posixipc.Os.{Timespec}
use posixipc.Calls.{
  Reply, Calls, return, ◌>>=◌, ◌>>◌, call, on_pointer, flag_process_shared, flag_monotonic,
  clock_realtime, clock_monotonic,
}

pub data Call : Type 0 where
  attr_init : Call
  attr_setpshared : Call
  attr_setclock : ℕ → Call
  attr_destroy : Call
  init : ℕ → Call
  signal : ℕ → Call
  broadcast : ℕ → Call
  wait : ℕ → ℕ → Call
  timedwait : ℕ → ℕ → Timespec → Call
  destroy : ℕ → Call

-- `posixipc_cond_clock`
pub cond_clock : ℕ → ℕ
cond_clock flags = if bit_and flags flag_monotonic == 0 then clock_realtime else clock_monotonic

module _ (reply : Reply Call) where
  -- destroys the attribute object and returns `rc`
  abandon : ℕ → Calls Call ℕ
  abandon rc = do call reply Call.attr_destroy; return rc

  -- the call of `pthread_cond_init` and what follows it
  init_last : ℕ → Calls Call ℕ
  unfolding abandon
  init_last c = do rc ← call reply (Call.init c); abandon rc

  -- from the choice of the clock on
  init_clock : Bool → ℕ → ℕ → Calls Call ℕ
  unfolding abandon init_last
  init_clock have_setclock flags c =
      if not have_setclock || bit_and flags flag_monotonic == 0 then init_last c else do
        rc ← call reply (Call.attr_setclock clock_monotonic)
        if rc != success then abandon rc else init_last c

  unfoldable pub cond_init : Bool → Option ℕ → Option ℕ → Calls Call ℕ
  unfolding abandon init_clock
  cond_init have_setclock none cfg = return einval
  cond_init have_setclock (some c) cfg = do
    rc ← call reply Call.attr_init
    if rc != success
        then return rc
        else if bit_and (Option.get_or cfg 0) flag_process_shared == 0
        then init_clock have_setclock (Option.get_or cfg 0) c
        else do
          rc' ← call reply Call.attr_setpshared
          if rc' != success then abandon rc' else init_clock have_setclock (Option.get_or cfg 0) c

  pub cond_signal : Option ℕ → Calls Call ℕ
  cond_signal c = on_pointer reply Call.signal c

  pub cond_broadcast : Option ℕ → Calls Call ℕ
  cond_broadcast c = on_pointer reply Call.broadcast c

  unfoldable pub cond_wait : Option ℕ → Option ℕ → Calls Call ℕ
  cond_wait none m = return einval
  cond_wait (some c) m = on_pointer reply (Call.wait c) m

  unfoldable pub cond_wait_until : Option ℕ → Option ℕ → Option Deadline → Calls Call ℕ
  cond_wait_until none m d = return einval
  cond_wait_until (some c) m none = return einval
  cond_wait_until (some c) m (some d) = on_pointer reply (λ p. Call.timedwait c p d.ts) m

  pub cond_destroy : Option ℕ → Calls Call ℕ
  cond_destroy c = on_pointer reply Call.destroy c

pub cond_storage_size : Config → ℕ
cond_storage_size c = kind_size c kind_cond 0
