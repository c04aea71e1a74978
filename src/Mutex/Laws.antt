-- ===== src/Mutex/Laws.antt =====
-- What posixipc_mutex_init and posixipc_mutex_lock_until of src/core/posixipc_mutex.c do.
use mathlib.Core.Option
use Prim.Native.Nat.{bit_and}
use posixipc.Prelude.{
  ℕ, suc, ◌-◌, ◌≡◌, refl, arith, Option, none, some, [], ◌∷◌, ◌==◌, if◌then◌else◌,
}
use posixipc.Codes.{success}
use posixipc.Calls.{Log, Reply, flag_robust, flag_process_shared, flag_priority_inherit}
use posixipc.Mutex.{
  Call, cleanup, attribute, init_inherit, init_robust, init_shared, mutex_init, mutex_lock_until,
}
use posixipc.Mutex

-- the attribute objects that are initialised and not destroyed
abbrev pub attrs : Log Call → ℕ
attrs [] = 0
attrs ((Mutex.Call.attr_init, rc) ∷ log) = if rc == success then suc (attrs log) else attrs log
attrs ((Mutex.Call.attr_destroy, rc) ∷ log) = attrs log - 1
attrs (c ∷ log) = attrs log

-- the calls that set what the flags ask for, the last one first
abbrev pub requested : ℕ → ℕ → Call → Log Call → Log Call
requested flags flag set log = if bit_and flags flag == 0 then log else (set, success) ∷ log

abbrev pub settings : ℕ → Log Call → Log Call
settings flags log = requested flags flag_priority_inherit Mutex.Call.attr_setprotocol_inherit (
    requested flags flag_robust Mutex.Call.attr_setrobust (
      requested flags flag_process_shared Mutex.Call.attr_setpshared
        ((Mutex.Call.attr_settype_errorcheck, success) ∷ (Mutex.Call.attr_init, success) ∷ log)))

abbrev pub but_last : Log Call → Log Call
but_last [] = []
but_last (c ∷ log) = log

module _ (reply : Reply Call) where
  init_inherit-attrs :
      (flags m : ℕ) (log : Log Call) → attrs (init_inherit reply flags m log).1 ≡ attrs log - 1
  unfolding init_inherit
  init_inherit-attrs flags m log = ground arith

  init_robust-attrs :
      (flags m : ℕ) (log : Log Call) → attrs (init_robust reply flags m log).1 ≡ attrs log - 1
  unfolding init_robust
  init_robust-attrs flags m log =
      let past = (Mutex.Call.attr_setrobust, reply log Mutex.Call.attr_setrobust) ∷ log in
      ground (arith, init_inherit-attrs flags m log, init_inherit-attrs flags m past)

  init_shared-attrs :
      (flags m : ℕ) (log : Log Call) → attrs (init_shared reply flags m log).1 ≡ attrs log - 1
  unfolding init_shared
  init_shared-attrs flags m log =
      let past = (Mutex.Call.attr_setpshared, reply log Mutex.Call.attr_setpshared) ∷ log in
      ground (arith, init_robust-attrs flags m log, init_robust-attrs flags m past)

  -- The attribute object of an init is destroyed on every path on which it was initialised.
  pub mutex_init-attrs :
      (m cfg : Option ℕ) (log : Log Call) → attrs (mutex_init reply m cfg log).1 ≡ attrs log
  unfolding mutex_init
  mutex_init-attrs none cfg log = refl
  mutex_init-attrs (some m) cfg log =
      let once = (Mutex.Call.attr_init, reply log Mutex.Call.attr_init) ∷ log in
      let twice =
        (Mutex.Call.attr_settype_errorcheck, reply once Mutex.Call.attr_settype_errorcheck)
        ∷ once in
      ground (arith, init_shared-attrs (Option.get_or cfg 0) m twice)

  init_inherit-settings :
      (flags m : ℕ) (log : Log Call)
      → (init_inherit reply flags m log).0 ≡ success
      → but_last (init_inherit reply flags m log).1
        ≡ (Mutex.Call.init m, success)
          ∷ requested flags flag_priority_inherit Mutex.Call.attr_setprotocol_inherit log
  unfolding init_inherit
  init_inherit-settings flags m log fine = ground arith

  init_robust-settings :
      (flags m : ℕ) (log : Log Call)
      → (init_robust reply flags m log).0 ≡ success
      → but_last (init_robust reply flags m log).1
        ≡ (Mutex.Call.init m, success)
          ∷ requested flags flag_priority_inherit Mutex.Call.attr_setprotocol_inherit
              (requested flags flag_robust Mutex.Call.attr_setrobust log)
  unfolding init_robust
  init_robust-settings flags m log fine =
      let past = (Mutex.Call.attr_setrobust, reply log Mutex.Call.attr_setrobust) ∷ log in
      ground (arith, init_inherit-settings flags m log, init_inherit-settings flags m past)

  init_shared-settings :
      (flags m : ℕ) (log : Log Call)
      → (init_shared reply flags m log).0 ≡ success
      → but_last (init_shared reply flags m log).1
        ≡ (Mutex.Call.init m, success)
          ∷ requested flags flag_priority_inherit Mutex.Call.attr_setprotocol_inherit (
              requested flags flag_robust Mutex.Call.attr_setrobust
                (requested flags flag_process_shared Mutex.Call.attr_setpshared log))
  unfolding init_shared
  init_shared-settings flags m log fine =
      let past = (Mutex.Call.attr_setpshared, reply log Mutex.Call.attr_setpshared) ∷ log in
      ground (arith, init_robust-settings flags m log, init_robust-settings flags m past)

  -- An init that succeeds has initialised the mutex with an attribute object on which it has set the
  -- type and exactly what the flags ask for.
  pub mutex_init-settings :
      (m : ℕ) (cfg : Option ℕ) (log : Log Call)
      → (mutex_init reply (some m) cfg log).0 ≡ success
      → but_last (mutex_init reply (some m) cfg log).1
        ≡ (Mutex.Call.init m, success) ∷ settings (Option.get_or cfg 0) log
  unfolding mutex_init
  mutex_init-settings m cfg log fine =
      let once = (Mutex.Call.attr_init, reply log Mutex.Call.attr_init) ∷ log in
      let twice =
        (Mutex.Call.attr_settype_errorcheck, reply once Mutex.Call.attr_settype_errorcheck)
        ∷ once in
      ground (arith, init_shared-settings (Option.get_or cfg 0) m twice)
