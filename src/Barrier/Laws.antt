-- ===== src/Barrier/Laws.antt =====
-- What posixipc_barrier_init of src/core/posixipc_barrier.c does.
use posixipc.Prelude.{
  ℕ, suc, ◌-◌, ◌≡◌, ◌≢◌, arith, Bool, Option, none, some, [], ◌∷◌, ◌==◌, if◌then◌else◌,
}
use posixipc.Codes.{success}
use posixipc.Calls.{Log, Reply}
use posixipc.Barrier.{Call, Party, party_of, init_attributes, barrier_init}
use posixipc.Barrier

-- the attribute objects that are initialised and not destroyed
abbrev pub attrs : Log Call → ℕ
attrs [] = 0
attrs ((Barrier.Call.attr_init, rc) ∷ log) = if rc == success then suc (attrs log) else attrs log
attrs ((Barrier.Call.attr_destroy, rc) ∷ log) = attrs log - 1
attrs (c ∷ log) = attrs log

-- a barrier was initialised for this number of parties, by the last call but the destroy of the
-- attribute object
abbrev pub initialised_for : Log Call → Option ℕ
initialised_for (c ∷ (Barrier.Call.init b parties, rc) ∷ log) =
    if rc == success then some parties else none
initialised_for _ = none

module _ (reply : Reply Call) where
  -- The attribute object of an init is destroyed on every path on which it was initialised.
  pub barrier_init-attrs :
      (have_wait have_setpshared : Bool) (b : Option ℕ) (cfg : Option Party) (log : Log Call)
      → attrs (barrier_init reply have_wait have_setpshared b cfg log).1 ≡ attrs log
  unfolding barrier_init
  barrier_init-attrs have_wait have_setpshared none cfg log = ground arith
  barrier_init-attrs have_wait have_setpshared (some b) cfg log = ground arith

  -- An init that succeeds was given at least one party, and has initialised the barrier for all of
  -- them.
  pub barrier_init-parties :
      (have_wait have_setpshared : Bool) (b : Option ℕ) (cfg : Option Party) (log : Log Call)
      → (barrier_init reply have_wait have_setpshared b cfg log).0 ≡ success
      → ((party_of cfg).parties ≢ 0)
        × (initialised_for (barrier_init reply have_wait have_setpshared b cfg log).1
            ≡ some ((party_of cfg).parties))
  unfolding barrier_init
  barrier_init-parties have_wait have_setpshared none cfg log fine = absurd (ground arith)
  barrier_init-parties have_wait have_setpshared (some b) cfg log fine =
      (ground arith, ground arith)
