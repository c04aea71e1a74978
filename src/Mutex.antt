-- ===== src/Mutex.antt =====
-- src/core/posixipc_mutex.c. `cfg` is the flags of the configuration, `none` for NULL;
-- `have_clocklock` is `posixipc_have_mutex_clocklock()`.
pub mod Laws
use Prim.Native.Nat.{bit_and}
use mathlib.Core.Option
use posixipc.Prelude.{ℕ, Bool, Option, none, some, List, [], ◌∷◌, ◌==◌, ◌!=◌, if◌then◌else◌}
use posixipc.Codes.{success, einval}
use posixipc.Config.{Config}
use posixipc.Layout.{kind_size, kind_mutex}
use posixipc.Time.{Deadline}
use posixipc.Os.{Timespec}
use posixipc.Calls.{
  Reply, Calls, return, ◌>>=◌, ◌>>◌, call, on_pointer, flag_robust, flag_process_shared,
  flag_priority_inherit, clock_realtime,
}

pub data Call : Type 0 where
  attr_init : Call
  attr_settype_errorcheck : Call
  attr_setpshared : Call
  attr_setrobust : Call
  attr_setprotocol_inherit : Call
  attr_destroy : Call
  init : ℕ → Call
  lock : ℕ → Call
  trylock : ℕ → Call
  unlock : ℕ → Call
  consistent : ℕ → Call
  destroy : ℕ → Call
  clocklock : ℕ → ℕ → Timespec → Call
  timedlock : ℕ → Timespec → Call

module _ (reply : Reply Call) where
  -- the label `cleanup`
  cleanup : ℕ → Calls Call ℕ
  cleanup rc = do call reply Call.attr_destroy; return rc

  -- an attribute that is set where the flags ask for it, before `rest`
  attribute : ℕ → ℕ → Call → Calls Call ℕ → Calls Call ℕ
  unfolding cleanup
  attribute flags flag set rest =
      if bit_and flags flag == 0
      then rest
      else do rc ← call reply set; if rc != success then cleanup rc else rest

  init_inherit : ℕ → ℕ → Calls Call ℕ
  unfolding attribute cleanup
  init_inherit flags m =
      attribute flags flag_priority_inherit Call.attr_setprotocol_inherit
        do rc ← call reply (Call.init m); cleanup rc

  init_robust : ℕ → ℕ → Calls Call ℕ
  unfolding attribute init_inherit
  init_robust flags m = attribute flags flag_robust Call.attr_setrobust (init_inherit flags m)

  init_shared : ℕ → ℕ → Calls Call ℕ
  unfolding attribute init_robust
  init_shared flags m =
      attribute flags flag_process_shared Call.attr_setpshared (init_robust flags m)

  unfoldable pub mutex_init : Option ℕ → Option ℕ → Calls Call ℕ
  unfolding init_shared cleanup
  mutex_init none cfg = return einval
  mutex_init (some m) cfg = do
    rc ← call reply Call.attr_init
    if rc != success then return rc else do
      rc' ← call reply Call.attr_settype_errorcheck
      if rc' != success then cleanup rc' else init_shared (Option.get_or cfg 0) m

  unfoldable pub mutex_lock : Option ℕ → Calls Call ℕ
  mutex_lock m = on_pointer reply Call.lock m

  unfoldable pub mutex_trylock : Option ℕ → Calls Call ℕ
  mutex_trylock m = on_pointer reply Call.trylock m

  unfoldable pub mutex_unlock : Option ℕ → Calls Call ℕ
  mutex_unlock m = on_pointer reply Call.unlock m

  unfoldable pub mutex_consistent : Option ℕ → Calls Call ℕ
  mutex_consistent m = on_pointer reply Call.consistent m

  unfoldable pub mutex_destroy : Option ℕ → Calls Call ℕ
  mutex_destroy m = on_pointer reply Call.destroy m

  unfoldable pub mutex_lock_until : Bool → Option ℕ → Option Deadline → Calls Call ℕ
  mutex_lock_until have_clocklock none d = return einval
  mutex_lock_until have_clocklock (some m) none = return einval
  mutex_lock_until have_clocklock (some m) (some d) =
      if have_clocklock
      then call reply (Call.clocklock m d.clk d.ts)
      else if d.clk != clock_realtime
      then return einval
      else call reply (Call.timedlock m d.ts)

pub mutex_storage_size : Config → ℕ
mutex_storage_size c = kind_size c kind_mutex 0
