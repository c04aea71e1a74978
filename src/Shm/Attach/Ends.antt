-- ===== src/Shm/Attach/Ends.antt =====
-- The two loops of posixipc_shm_attach in src/core/posixipc_shm.c end by the deadline.
use posixipc.Prelude.{
  ℕ, zero, suc, ◌+◌, ◌≤◌, ◌≡◌, ◌≢◌, refl, arith, Bool, true, false, not, Option, some, ◌∷◌, is_null,
  leb, length, ◌!=◌, ◌==◌, if◌then◌else◌,
}
use posixipc.Codes.{success, eacces, error_not_ready, error_broken}
use posixipc.Layout.{header_bytes}
use posixipc.Os.{Os, Stat, Event, Trace, Io, pure, ◌>>=◌, perform}
use posixipc.Os.Steps.{attempt-holds, if-holds}
use posixipc.Time.{Deadline, deadline_expired}
use posixipc.Shm.{stat_permitted, state_ready, state_broken}
use posixipc.Shm.Attach.{
  sleep_backoff, round_sleep, size_seen, size_stat, wait_size, state_seen, wait_ready,
}

-- the run has a result, so that its fuel did not run out
abbrev pub Ends : Option ℕ × Trace → Type 0
Ends out = is_null out.0 ≡ false

module _ (os : Os) where
  deadline_expired-longer :
      (d : Deadline) (tr : Trace) → length (deadline_expired os (some d) tr).1 ≡ suc (length tr)
  unfolding deadline_expired
  deadline_expired-longer d tr = ground arith

  sleep_backoff-longer : (b : ℕ) (tr : Trace) → length (sleep_backoff os b tr).1 ≡ suc (length tr)
  unfolding sleep_backoff
  sleep_backoff-longer b tr = ground arith

  module _ (again : ℕ → Io (Option ℕ)) (n : ℕ)
      (goes : (b : ℕ) (t : Trace) → n ≤ length t → Ends (again b t)) where
    round_sleep-Ends : (b : ℕ) (tr : Trace) → n ≤ length tr → Ends (round_sleep os again b tr)
    unfolding round_sleep
    round_sleep-Ends b tr h =
        if-holds Ends ((sleep_backoff os b tr).0.0 != success)
          (pure (some (sleep_backoff os b tr).0.0)) (again (sleep_backoff os b tr).0.1)
          (sleep_backoff os b tr).1 (λ _. refl)
          λ _. goes _ _ (omega (arith, sleep_backoff-longer b tr))

    size_seen-Ends :
        (b : ℕ) (st : Stat) (tr : Trace) → n ≤ length tr → Ends (size_seen os again b st tr)
    unfolding size_seen
    size_seen-Ends b st tr h =
        if-holds Ends (not (stat_permitted os.geteuid (some st))) (pure (some eacces))
          (if leb header_bytes st.size then pure (some success) else round_sleep os again b) tr
          (λ _. refl)
          λ _.
            if-holds Ends (leb header_bytes st.size) (pure (some success)) (round_sleep os again b)
              tr (λ _. refl) λ _. round_sleep-Ends b tr h

    size_stat-Ends : (fd b : ℕ) (tr : Trace) → n ≤ length tr → Ends (size_stat os again fd b tr)
    unfolding size_stat
    size_stat-Ends fd b tr h =
        attempt-holds Ends (λ t. os.fstat t fd) (Event.fstat fd) (λ e. pure (some e))
          (size_seen os again b) tr (λ e. refl) λ st. size_seen-Ends b st _ (omega arith)

    state_seen-Ends :
        (b state : ℕ) (tr : Trace) → n ≤ length tr → Ends (state_seen os again b state tr)
    unfolding state_seen
    state_seen-Ends b state tr h =
        if-holds Ends (state == state_ready) (pure (some success))
          (if state == state_broken then pure (some error_broken) else round_sleep os again b) tr
          (λ _. refl)
          λ _.
            if-holds Ends (state == state_broken) (pure (some error_broken))
              (round_sleep os again b) tr (λ _. refl) λ _. round_sleep-Ends b tr h

  module _ (d : Deadline) (limit : ℕ)
      (passes : (t : Trace) → limit ≤ length t → (deadline_expired os (some d) t).0 ≡ true) where
    no-true-false : {b : Bool} → b ≡ true → b ≢ false
    no-true-false e f = ground arith

    size_loop-Ends :
        (fuel fd b : ℕ) (tr : Trace)
        → limit ≤ fuel + length tr
        → Ends (wait_size os (suc fuel) fd (some d) b tr)
    unfolding wait_size
    size_loop-Ends zero fd b tr h =
        if-holds Ends (deadline_expired os (some d) tr).0 (pure (some error_not_ready))
          (size_stat os (wait_size os zero fd (some d)) fd b) (deadline_expired os (some d) tr).1
          (λ _. refl) λ early. absurd (no-true-false (passes tr (omega arith)) early)
    size_loop-Ends (suc fuel) fd b tr h =
        if-holds Ends (deadline_expired os (some d) tr).0 (pure (some error_not_ready))
          (size_stat os (wait_size os (suc fuel) fd (some d)) fd b)
          (deadline_expired os (some d) tr).1 (λ _. refl)
          λ _.
            size_stat-Ends (wait_size os (suc fuel) fd (some d)) (suc (length tr))
              (λ b' t longer. size_loop-Ends fuel fd b' t (omega arith)) fd b _
              (omega (arith, deadline_expired-longer d tr))

    ready_loop-Ends :
        (fuel window b : ℕ) (tr : Trace)
        → limit ≤ fuel + length tr
        → Ends (wait_ready os (suc fuel) window (some d) b tr)
    unfolding wait_ready
    ready_loop-Ends zero window b tr h =
        if-holds Ends (deadline_expired os (some d) tr).0 (pure (some error_not_ready))
          (perform (λ t. os.load_state t window) (Event.load_state window)
            >>= state_seen os (wait_ready os zero window (some d)) b)
          (deadline_expired os (some d) tr).1 (λ _. refl)
          λ early. absurd (no-true-false (passes tr (omega arith)) early)
    ready_loop-Ends (suc fuel) window b tr h =
        if-holds Ends (deadline_expired os (some d) tr).0 (pure (some error_not_ready))
          (perform (λ t. os.load_state t window) (Event.load_state window)
            >>= state_seen os (wait_ready os (suc fuel) window (some d)) b)
          (deadline_expired os (some d) tr).1 (λ _. refl)
          λ _.
            state_seen-Ends (wait_ready os (suc fuel) window (some d)) (suc (length tr))
              (λ b' t longer. ready_loop-Ends fuel window b' t (omega arith)) b
              (os.load_state (deadline_expired os (some d) tr).1 window)
              (Event.load_state window (os.load_state (deadline_expired os (some d) tr).1 window)
                ∷ (deadline_expired os (some d) tr).1)
              (omega (arith, deadline_expired-longer d tr))

    -- Where the deadline has passed on every run of `limit` calls or more, that much fuel and one round
    -- more ends both loops of an attach, at any time.
    pub wait_loops-Ends :
        (fuel fd window b : ℕ) (tr : Trace)
        → limit ≤ fuel
        → Ends (wait_size os (suc fuel) fd (some d) b tr)
          × Ends (wait_ready os (suc fuel) window (some d) b tr)
    wait_loops-Ends fuel fd window b tr h =
        (size_loop-Ends fuel fd b tr (omega arith), ready_loop-Ends fuel window b tr (omega arith))
