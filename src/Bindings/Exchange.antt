-- ===== src/Bindings/Exchange.antt =====
-- What put and get of src/bindings/py_queue.c and of src/bindings/py_linux.c share: the lock, and the
-- loop that waits until there is room or an item.
pub mod Laws
pub mod Items
pub mod Ending
use posixipc.Prelude.{
  ℕ, zero, suc, Bool, not, ◌&&◌, ◌||◌, Option, none, some, is_null, ◌==◌, ◌!=◌, if◌then◌else◌,
}
use posixipc.Codes.{success, einval, etimedout, error_interrupted, enotrecoverable}
use posixipc.Bindings.Errors.{Raised, posixipc_err, Outcome, returned, raised}
use posixipc.Bindings.Run.{Run, give, ◌>>=◌, ◌>>◌}
use posixipc.Bindings.Acquire.{Opts}

-- `!opts.blocking || (!opts.timeout_none && opts.timeout == 0.0)`
abbrev pub at_once : Opts → Bool
at_once opts = not opts.blocking || (not (is_null opts.timeout) && opts.zero_timeout)

-- what a failed lock raises
abbrev pub lock_failed : {A : Type 0} → ℕ → Outcome A
lock_failed rc =
    raised (if rc == enotrecoverable then some Raised.not_recoverable else posixipc_err rc)

-- behind the test that the object is open
abbrev pub when_open : {S A : Type 0} → Option Raised → Run S (Outcome A) → Run S (Outcome A)
when_open (some e) m = give (raised (some e))
when_open none m = m

-- behind the lock
abbrev pub when_locked : {S A : Type 0} → Run S ℕ → Run S (Outcome A) → Run S (Outcome A)
when_locked lock m = lock >>= λ rc. if rc != success then give (lock_failed rc) else m

abbrev pub unlock_and : {S A : Type 0} → Run S ℕ → Outcome A → Run S (Outcome A)
unlock_and unlock out = do unlock; give out

-- behind a wait in the loop: `rest` is the next round, `late` is what a time-out returns
pub after_wait : {S A : Type 0} → Run S ℕ → Run S (Outcome A) → A → ℕ → Run S (Outcome A)
after_wait unlock rest late rc =
    if rc == etimedout
    then unlock_and unlock (returned late)
    else if rc != success
    then unlock_and unlock
        (raised (if rc != error_interrupted then posixipc_err rc else some Raised.pending))
    else rest

-- `count` is `posixipc_queue_qsize`, `none` where it fails, and `wait` the wait on fuel.
module _ {S : Type 0} (unlock : Run S ℕ) (count : S → Option ℕ) (wait : ℕ → Run S ℕ) where
  -- a round of the loop, with the count: `ready` is the test of the count, and `last` is what follows
  -- the loop
  pub round_of :
      {A : Type 0}
      → ℕ
      → Opts
      → (ℕ → Bool)
      → A
      → Run S (Outcome A)
      → Run S (Outcome A)
      → Option ℕ
      → Run S (Outcome A)
  unfolding after_wait
  round_of fuel opts ready late last rest none = unlock_and unlock (raised (posixipc_err einval))
  round_of fuel opts ready late last rest (some n) =
      if ready n
      then last
      else if at_once opts
      then unlock_and unlock (returned late)
      else (wait fuel >>= after_wait unlock rest late)

  pub loop : {A : Type 0} → ℕ → Opts → (ℕ → Bool) → A → Run S (Outcome A) → Run S (Outcome A)
  unfolding round_of
  loop zero opts ready late last s = (none, s)
  loop (suc fuel) opts ready late last s =
      round_of fuel opts ready late last (loop fuel opts ready late last) (count s) s
