-- ===== src/Sem.antt =====
-- src/core/posixipc_sem.c. The reply of a call is 0, or the errno that it sets. `have_clockwait` is
-- `posixipc_have_sem_clockwait()`.
pub mod Laws
use Prim.Native.Nat.{bit_and}
use posixipc.Prelude.{ℕ, Bool, Option, none, some, ◌!=◌, if◌then◌else◌}
use posixipc.Codes.{einval}
use posixipc.Config.{Config}
use posixipc.Layout.{kind_size, kind_sem}
use posixipc.Time.{Deadline}
use posixipc.Os.{Timespec}
use posixipc.Calls.{
  Reply, Calls, return, call, on_pointer, flag_process_shared, clock_realtime, clock_monotonic,
}

-- `posixipc_sem_config`
pub record Start : Type 0 where
  pub flags : ℕ
  pub value : ℕ

pub data Call : Type 0 where
  -- the Boolean is `pshared`
  init : Bool → ℕ → ℕ → Call
  wait : ℕ → Call
  trywait : ℕ → Call
  post : ℕ → Call
  destroy : ℕ → Call
  clockwait : ℕ → ℕ → Timespec → Call
  timedwait : ℕ → Timespec → Call

-- what the code reads of `cfg`
abbrev pub start_of : Option Start → Start
start_of none = record { flags = 0; value = 0 }
start_of (some s) = s

-- `posixipc_sem_clock`
unfoldable pub sem_clock : Bool → ℕ
sem_clock have_clockwait = if have_clockwait then clock_monotonic else clock_realtime

module _ (reply : Reply Call) where
  pub sem_init : Option ℕ → Option Start → Calls Call ℕ
  sem_init s cfg =
      let start = start_of cfg in
      on_pointer reply (Call.init (bit_and start.flags flag_process_shared != 0) start.value) s

  unfoldable pub sem_wait : Option ℕ → Calls Call ℕ
  sem_wait s = on_pointer reply Call.wait s

  unfoldable pub sem_trywait : Option ℕ → Calls Call ℕ
  sem_trywait s = on_pointer reply Call.trywait s

  unfoldable pub sem_post : Option ℕ → Calls Call ℕ
  sem_post s = on_pointer reply Call.post s

  pub sem_destroy : Option ℕ → Calls Call ℕ
  sem_destroy s = on_pointer reply Call.destroy s

  unfoldable pub sem_wait_until : Bool → Option ℕ → Option Deadline → Calls Call ℕ
  sem_wait_until have_clockwait none d = return einval
  sem_wait_until have_clockwait (some s) none = return einval
  sem_wait_until have_clockwait (some s) (some d) =
      if have_clockwait
      then call reply (Call.clockwait s d.clk d.ts)
      else if d.clk != clock_realtime
      then return einval
      else call reply (Call.timedwait s d.ts)

pub sem_storage_size : Config → ℕ
sem_storage_size c = kind_size c kind_sem 0
