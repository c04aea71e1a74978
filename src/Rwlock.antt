-- ===== src/Rwlock.antt =====
-- src/core/posixipc_rwlock.c. `cfg` is the flags of the configuration, `none` for NULL;
-- `have_clocklock` is `posixipc_have_rwlock_clocklock()`.
pub mod Laws
use mathlib.Core.Option
use Prim.Native.Nat.{bit_and}
use posixipc.Prelude.{ℕ, Bool, Option, none, some, List, [], ◌∷◌, ◌==◌, ◌!=◌, if◌then◌else◌}
use posixipc.Codes.{success, einval}
use posixipc.Config.{Config}
use posixipc.Layout.{kind_size, kind_rwlock}
use posixipc.Time.{Deadline}
use posixipc.Os.{Timespec}
use posixipc.Calls.{
  Reply, Calls, return, ◌>>=◌, ◌>>◌, call, on_pointer, flag_process_shared, clock_realtime,
  clock_monotonic,
}

pub data Call : Type 0 where
  attr_init : Call
  attr_setpshared : Call
  attr_destroy : Call
  init : ℕ → Call
  rdlock : ℕ → Call
  wrlock : ℕ → Call
  tryrdlock : ℕ → Call
  trywrlock : ℕ → Call
  unlock : ℕ → Call
  destroy : ℕ → Call
  clockrdlock : ℕ → ℕ → Timespec → Call
  clockwrlock : ℕ → ℕ → Timespec → Call
  timedrdlock : ℕ → Timespec → Call
  timedwrlock : ℕ → Timespec → Call

-- `posixipc_rwlock_clock`
unfoldable pub rwlock_clock : Bool → ℕ
rwlock_clock have_clocklock = if have_clocklock then clock_monotonic else clock_realtime

module _ (reply : Reply Call) where
  -- destroys the attribute object and returns `rc`
  abandon : ℕ → Calls Call ℕ
  abandon rc = do call reply Call.attr_destroy; return rc

  -- the call of `pthread_rwlock_init` and what follows it
  init_last : ℕ → Calls Call ℕ
  unfolding abandon
  init_last rw = do rc ← call reply (Call.init rw); abandon rc

  pub rwlock_init : Option ℕ → Option ℕ → Calls Call ℕ
  unfolding abandon init_last
  rwlock_init none cfg = return einval
  rwlock_init (some rw) cfg = do
    rc ← call reply Call.attr_init
    if rc != success
        then return rc
        else if bit_and (Option.get_or cfg 0) flag_process_shared == 0
        then init_last rw
        else do
          rc' ← call reply Call.attr_setpshared
          if rc' != success then abandon rc' else init_last rw

  unfoldable pub rwlock_rdlock : Option ℕ → Calls Call ℕ
  rwlock_rdlock rw = on_pointer reply Call.rdlock rw

  unfoldable pub rwlock_wrlock : Option ℕ → Calls Call ℕ
  rwlock_wrlock rw = on_pointer reply Call.wrlock rw

  unfoldable pub rwlock_tryrdlock : Option ℕ → Calls Call ℕ
  rwlock_tryrdlock rw = on_pointer reply Call.tryrdlock rw

  unfoldable pub rwlock_trywrlock : Option ℕ → Calls Call ℕ
  rwlock_trywrlock rw = on_pointer reply Call.trywrlock rw

  unfoldable pub rwlock_unlock : Option ℕ → Calls Call ℕ
  rwlock_unlock rw = on_pointer reply Call.unlock rw

  pub rwlock_destroy : Option ℕ → Calls Call ℕ
  rwlock_destroy rw = on_pointer reply Call.destroy rw

  unfoldable pub rwlock_rdlock_until : Bool → Option ℕ → Option Deadline → Calls Call ℕ
  rwlock_rdlock_until have_clocklock none d = return einval
  rwlock_rdlock_until have_clocklock (some rw) none = return einval
  rwlock_rdlock_until have_clocklock (some rw) (some d) =
      if have_clocklock
      then call reply (Call.clockrdlock rw d.clk d.ts)
      else if d.clk != clock_realtime
      then return einval
      else call reply (Call.timedrdlock rw d.ts)

  unfoldable pub rwlock_wrlock_until : Bool → Option ℕ → Option Deadline → Calls Call ℕ
  rwlock_wrlock_until have_clocklock none d = return einval
  rwlock_wrlock_until have_clocklock (some rw) none = return einval
  rwlock_wrlock_until have_clocklock (some rw) (some d) =
      if have_clocklock
      then call reply (Call.clockwrlock rw d.clk d.ts)
      else if d.clk != clock_realtime
      then return einval
      else call reply (Call.timedwrlock rw d.ts)

pub rwlock_storage_size : Config → ℕ
rwlock_storage_size c = kind_size c kind_rwlock 0
