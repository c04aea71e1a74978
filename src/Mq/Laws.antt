-- ===== src/Mq/Laws.antt =====
-- The descriptors of src/core/posixipc_mq.c.
use posixipc.Prelude.{
  ℕ, suc, ◌-◌, ◌≡◌, arith, Bool, true, false, Option, some, [], ◌∷◌, ◌==◌, if◌then◌else◌,
}
use posixipc.Codes.{success}
use posixipc.Os.{Name}
use posixipc.Calls.{Log, Reply}
use posixipc.Mq.{Call, open_named, mq_create, mq_open_or_create, mq_attach, mq_close}
use posixipc.Mq

-- the descriptors that are open
abbrev pub opened : Log Call → ℕ
opened [] = 0
opened ((Mq.Call.open_new name maxmsg msgsize, rc) ∷ log) =
    if rc == success then suc (opened log) else opened log
opened ((Mq.Call.open_any name maxmsg msgsize, rc) ∷ log) =
    if rc == success then suc (opened log) else opened log
opened ((Mq.Call.open_old name, rc) ∷ log) = if rc == success then suc (opened log) else opened log
opened ((Mq.Call.close mq, rc) ∷ log) = if rc == success then opened log - 1 else opened log
opened (c ∷ log) = opened log

-- whether `*out` holds a descriptor
abbrev pub holds : Option (Option ℕ) → Bool
holds (some (some mq)) = true
holds _ = false

-- A function that opens a queue leaves one descriptor more, and in `*out`, if it succeeds, and none
-- if it fails.
pub record Opens (log : Log Call) (out : (ℕ × Option (Option ℕ)) × Log Call) : Type 0 where
  pub count : opened out.1 ≡ (if out.0.0 == success then suc (opened log) else opened log)
  pub handed : out.0.0 ≡ success → holds out.0.1 ≡ true

module _ (reply value : Reply Call) (have : Bool) (name : Option Name) (maxmsg msgsize : ℕ)
    (out : Option (Option ℕ)) (log : Log Call) where
  mq_create-Opens : Opens log (mq_create reply value have name maxmsg msgsize out log)
  unfolding mq_create
  mq_create-Opens = record { count = ground arith; handed = λ fine. ground arith }

  mq_open_or_create-Opens :
      Opens log (mq_open_or_create reply value have name maxmsg msgsize out log)
  unfolding mq_open_or_create
  mq_open_or_create-Opens = record { count = ground arith; handed = λ fine. ground arith }

  mq_attach-Opens : Opens log (mq_attach reply value have name out log)
  unfolding mq_attach
  mq_attach-Opens = record { count = ground arith; handed = λ fine. ground arith }

  -- The three functions that open a message queue leave a descriptor open exactly if they succeed, and
  -- then it is in `*out`.
  pub opening-Opens :
      Opens log (mq_create reply value have name maxmsg msgsize out log)
      × Opens log (mq_open_or_create reply value have name maxmsg msgsize out log)
      × Opens log (mq_attach reply value have name out log)
  opening-Opens = (mq_create-Opens, mq_open_or_create-Opens, mq_attach-Opens)
