-- ===== src/Barrier.antt =====
-- src/core/posixipc_barrier.c. The two Booleans of `barrier_init` are the configuration's
-- POSIXIPC_HAVE_PTHREAD_BARRIER_WAIT and POSIXIPC_HAVE_PTHREAD_BARRIERATTR_SETPSHARED.
pub mod Laws
use Prim.Native.Nat.{bit_and}
use posixipc.Prelude.{
  ℕ, Bool, ◌||◌, Option, none, some, List, [], ◌∷◌, is_null, ◌==◌, ◌!=◌, if◌then◌else◌,
}
use posixipc.Codes.{success, einval, enotsup, barrier_serial}
use posixipc.Config.{Config}
use posixipc.Layout.{kind_size, kind_barrier}
use posixipc.Calls.{Reply, Calls, return, ◌>>=◌, ◌>>◌, call, on_pointer, flag_process_shared}

-- `posixipc_barrier_config`
pub record Party : Type 0 where
  pub flags : ℕ
  pub parties : ℕ

pub data Call : Type 0 where
  attr_init : Call
  attr_setpshared : Call
  attr_destroy : Call
  init : ℕ → ℕ → Call
  wait : ℕ → Call
  destroy : ℕ → Call

-- what the code reads of `cfg`
abbrev pub party_of : Option Party → Party
party_of none = record { flags = 0; parties = 0 }
party_of (some p) = p

module _ (reply : Reply Call) where
  -- destroys the attribute object and returns `rc`
  abandon : ℕ → Calls Call ℕ
  abandon rc = do call reply Call.attr_destroy; return rc

  -- the call of `pthread_barrier_init` and what follows it
  init_last : ℕ → ℕ → Calls Call ℕ
  unfolding abandon
  init_last b parties = do rc ← call reply (Call.init b parties); abandon rc

  -- behind the test of the pointer and the parties
  init_attributes : Bool → ℕ → Party → Calls Call ℕ
  unfolding abandon init_last
  init_attributes have_setpshared b p = do
    rc ← call reply Call.attr_init
    if rc != success
        then return rc
        else if bit_and (p.flags) flag_process_shared == 0
        then init_last b p.parties
        else if have_setpshared
        then (do
          rc' ← call reply Call.attr_setpshared
          if rc' != success then abandon rc' else init_last b p.parties)
        else abandon enotsup

  unfoldable pub barrier_init : Bool → Bool → Option ℕ → Option Party → Calls Call ℕ
  unfolding init_attributes
  barrier_init have_wait have_setpshared none cfg =
      if have_wait then return einval else return enotsup
  barrier_init have_wait have_setpshared (some b) cfg =
      if have_wait
      then (if (party_of cfg).parties == 0
          then return einval
          else init_attributes have_setpshared b (party_of cfg))
      else return enotsup

  -- PTHREAD_BARRIER_SERIAL_THREAD, `serial`, becomes POSIXIPC_BARRIER_SERIAL.
  pub barrier_wait : Bool → ℕ → Option ℕ → Calls Call ℕ
  barrier_wait have_wait serial none = if have_wait then return einval else return enotsup
  barrier_wait have_wait serial (some b) =
      if have_wait
      then (do
        rc ← call reply (Call.wait b)
        if rc == 0
            then return success
            else if rc == serial
            then return barrier_serial
            else return rc)
      else return enotsup

  pub barrier_destroy : Bool → Option ℕ → Calls Call ℕ
  barrier_destroy have_wait b =
      if have_wait then on_pointer reply Call.destroy b else return enotsup

pub barrier_storage_size : Config → ℕ
barrier_storage_size c = kind_size c kind_barrier 0
