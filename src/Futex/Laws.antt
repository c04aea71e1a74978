-- ===== src/Futex/Laws.antt =====
-- The loop of posixipc_futex_wait in src/core/posixipc_futex.c.
use posixipc.Prelude.{
  ℕ, zero, suc, ◌∙◌, ◌+◌, ◌<◌, ◌≡◌, ◌≢◌, arith, Bool, false, not, none, some, ◌∷◌, ◌==◌,
  if◌then◌else◌,
}
use posixipc.Codes.{success, einval, eagain, eintr}
use posixipc.Time.{Deadline}
use posixipc.Calls.{Log, Reply, clock_monotonic}
use posixipc.Futex.{Call, after_wait, wait_loop, futex_wait}
use posixipc.Futex

-- the log after `k` waits that a signal interrupted
abbrev pub interrupted : Call → ℕ → Log Call → Log Call
interrupted c zero log = log
interrupted c (suc k) log = (c, eintr) ∷ interrupted c k log

-- the status of a wait that a signal does not interrupt: a word that has another value already is no
-- error
abbrev pub woken : ℕ → ℕ
woken r = if r == eagain then success else r

module _ (reply : Reply Call) where
  wait_loop-step :
      (c : Call) (fuel : ℕ) (log : Log Call)
      → reply log c ≡ eintr
      → wait_loop reply (suc fuel) false c log ≡ wait_loop reply fuel false c ((c, eintr) ∷ log)
  unfolding wait_loop
  wait_loop-step c fuel log e = ground arith

  wait_loop-ends :
      (c : Call) (fuel : ℕ) (log : Log Call)
      → reply log c ≢ eintr
      → wait_loop reply (suc fuel) false c log
        ≡ (some (woken (reply log c)), (c, reply log c) ∷ log)
  unfolding wait_loop
  wait_loop-ends c fuel log e = ground arith

  module _ (c : Call) (log : Log Call) (k : ℕ)
      (signals : (i : ℕ) → i < k → reply (interrupted c i log) c ≡ eintr)
      (ends : reply (interrupted c k log) c ≢ eintr) where
    wait_loop-from :
        (d i fuel : ℕ)
        → i + d ≡ k
        → d < fuel
        → wait_loop reply fuel false c (interrupted c i log) ≡ (
          some (woken (reply (interrupted c k log) c)),
          (c, reply (interrupted c k log) c) ∷ interrupted c k log,
        )
    wait_loop-from d i zero e h = absurd (omega arith)
    wait_loop-from zero i (suc fuel) e h =
        let here : i ≡ k = omega arith in rw here (wait_loop-ends c fuel (interrupted c k log) ends)
    wait_loop-from (suc d) i (suc fuel) e h =
        wait_loop-step c fuel (interrupted c i log) (signals i (omega arith))
        ∙ wait_loop-from d (suc i) fuel (omega arith) (omega arith)

  -- A wait without a deadline that signals interrupt `k` times goes round again each time, and fuel
  -- for one round more gives its status: that of the first wait that is not interrupted, with 0 for a
  -- word that has another value than is expected.
  pub futex_wait-retries :
      (word expected k fuel : ℕ) (process_shared : Bool) (log : Log Call)
      → let c = Futex.Call.wait word expected none (not process_shared) in
        ((i : ℕ) → i < k → reply (interrupted c i log) c ≡ eintr)
        → reply (interrupted c k log) c ≢ eintr
        → k < fuel
        → futex_wait reply fuel (some word) expected none process_shared log ≡ (
          some (woken (reply (interrupted c k log) c)),
          (c, reply (interrupted c k log) c) ∷ interrupted c k log,
        )
  unfolding futex_wait
  futex_wait-retries word expected k fuel process_shared log signals ends h =
      wait_loop-from _ log k signals ends k 0 fuel (omega arith) h

  -- A wait with a deadline makes one call at most, by the monotonic clock; a signal ends it with EINTR.
  pub futex_wait-deadline :
      (word expected fuel : ℕ) (d : Deadline) (process_shared : Bool) (log : Log Call)
      → let c = Futex.Call.wait word expected (some d.ts) (not process_shared) in
        futex_wait reply (suc fuel) (some word) expected (some d) process_shared log ≡ (
          if d.clk == clock_monotonic
          then (some (woken (reply log c)), (c, reply log c) ∷ log)
          else (some einval, log))
  unfolding futex_wait wait_loop
  futex_wait-deadline word expected fuel d process_shared log = ground arith
