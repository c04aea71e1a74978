-- ===== src/Futex.antt =====
-- src/core/posixipc_futex.c on Linux. The reply of the system call is 0 for a result that is not
-- negative and the errno that it sets otherwise.
pub mod Laws
use posixipc.Prelude.{
  List, [], ◌∷◌, ℕ, zero, suc, ◌+◌, Bool, true, false, not, ◌&&◌, ◌||◌, Option, none, some, ltb,
  is_null, ◌==◌, ◌!=◌, if◌then◌else◌,
}
use posixipc.Codes.{success, einval, eagain, eintr, etimedout}
use posixipc.Word.{add32}
use posixipc.Time.{Deadline}
use posixipc.Os.{Timespec}
use posixipc.Calls.{Log, Reply, Calls, return, call, clock_monotonic}

pub data Call : Type 0 where
  -- FUTEX_WAIT_BITSET: the word, what it is expected to hold, the time, and FUTEX_PRIVATE_FLAG
  wait : ℕ → ℕ → Option Timespec → Bool → Call
  -- FUTEX_WAKE: the word, the number of waiters, and FUTEX_PRIVATE_FLAG
  wake : ℕ → ℕ → Bool → Call

-- `posixipc_futex_add`: the value that is returned, and the word afterwards
pub futex_add : ℕ → ℕ → ℕ × ℕ
futex_add word delta = (word, add32 word delta)

pub futex_load : ℕ → ℕ
futex_load word = word

-- the word afterwards
pub futex_store : ℕ → ℕ → ℕ
futex_store word value = value

-- what the loop does of a reply: the status that it returns, or `none` to go round again
after_wait : Bool → ℕ → Option ℕ
after_wait has_deadline r =
    if r == 0 || r == eagain
    then some success
    else if r == etimedout
    then some etimedout
    else if r == eintr
    then (if has_deadline then some eintr else none)
    else some r

module _ (reply : Reply Call) where
  -- The loop on fuel: a status of `none` says that the fuel ran out.
  pub wait_loop : ℕ → Bool → Call → Calls Call (Option ℕ)
  unfolding after_wait
  wait_loop zero has_deadline c log = (none, log)
  wait_loop (suc fuel) has_deadline c log =
      let r = reply log c in
      let log' = (c, r) ∷ log in
      elim (after_wait has_deadline r) [
        | none ↦ wait_loop fuel has_deadline c log'
        | some rc ↦ (some rc, log')
      ]

  pub futex_wait : ℕ → Option ℕ → ℕ → Option Deadline → Bool → Calls Call (Option ℕ)
  unfolding wait_loop
  futex_wait fuel none expected deadline process_shared = return (some einval)
  futex_wait fuel (some word) expected none process_shared =
      wait_loop fuel false (Call.wait word expected none (not process_shared))
  futex_wait fuel (some word) expected (some d) process_shared =
      if d.clk != clock_monotonic
      then return (some einval)
      else wait_loop fuel true (Call.wait word expected (some d.ts) (not process_shared))

  -- `negative` is the test `nwaiters < 0`; INT_MAX is the largest `int`, so its clamp does nothing.
  pub futex_wake : Option ℕ → Bool → ℕ → Bool → Calls Call ℕ
  futex_wake none negative nwaiters process_shared = return einval
  futex_wake (some word) negative nwaiters process_shared =
      if negative then return einval else call reply (Call.wake word nwaiters (not process_shared))
