-- ===== src/Spin.antt =====
-- src/core/posixipc_spin.c. `have` is POSIXIPC_HAVE_PTHREAD_SPIN_INIT, in `spin_trylock`
-- POSIXIPC_HAVE_PTHREAD_SPIN_TRYLOCK. `cfg` is the flags of the configuration, `none` for NULL.
use mathlib.Core.Option
use Prim.Native.Nat.{bit_and}
use posixipc.Prelude.{ℕ, Bool, Option, ◌!=◌, if◌then◌else◌}
use posixipc.Codes.{enotsup}
use posixipc.Config.{Config}
use posixipc.Layout.{kind_size, kind_spin}
use posixipc.Calls.{Reply, Calls, return, on_pointer, flag_process_shared}

pub data Call : Type 0 where
  -- the Boolean is whether it is PTHREAD_PROCESS_SHARED
  init : Bool → ℕ → Call
  trylock : ℕ → Call
  unlock : ℕ → Call
  destroy : ℕ → Call

module _ (reply : Reply Call) where
  pub spin_init : Bool → Option ℕ → Option ℕ → Calls Call ℕ
  spin_init have s cfg =
      let pshared = bit_and (Option.get_or cfg 0) flag_process_shared != 0 in
      if have then on_pointer reply (Call.init pshared) s else return enotsup

  pub spin_trylock : Bool → Option ℕ → Calls Call ℕ
  spin_trylock have s = if have then on_pointer reply Call.trylock s else return enotsup

  pub spin_unlock : Bool → Option ℕ → Calls Call ℕ
  spin_unlock have s = if have then on_pointer reply Call.unlock s else return enotsup

  pub spin_destroy : Bool → Option ℕ → Calls Call ℕ
  spin_destroy have s = if have then on_pointer reply Call.destroy s else return enotsup

pub spin_storage_size : Config → ℕ
spin_storage_size c = kind_size c kind_spin 0
