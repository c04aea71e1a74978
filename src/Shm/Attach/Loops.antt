-- ===== src/Shm/Attach/Loops.antt =====
-- The two waiting loops of posixipc_shm_attach of src/core/posixipc_shm.c: what they leave behind.
use posixipc.Prelude.{
  ℕ, zero, suc, ◌≡◌, arith, not, Option, none, some, ◌∷◌, leb, ◌==◌, ◌!=◌, if◌then◌else◌,
}
use posixipc.Codes.{success, eacces, error_not_ready, error_broken}
use posixipc.Layout.{header_bytes}
use posixipc.Os.{
  Os, Watch, Stat, Event, Trace, Io, open_fds, mappings, objects, pure, ◌>>=◌, perform,
}
use posixipc.Os.Steps.{attempt-holds, if-holds}
use posixipc.Time.{Deadline, deadline_expired}
use posixipc.Shm.{stat_permitted, state_ready, state_broken}
use posixipc.Shm.Attach.{
  sleep_backoff, round_sleep, size_seen, size_stat, wait_size, state_seen, wait_ready,
}

-- the counts of descriptors, mappings and objects at a time
abbrev pub Same : Watch → ℕ → ℕ → ℕ → Trace → Type 0
Same w fds maps names tr = (open_fds w tr ≡ fds) × (mappings w tr ≡ maps) × (objects w tr ≡ names)

module _ (os : Os) (w : Watch) (fds maps names : ℕ) where
  deadline_expired-Same :
      (d : Option Deadline) (tr : Trace)
      → Same w fds maps names tr
      → Same w fds maps names (deadline_expired os d tr).1
  unfolding deadline_expired
  deadline_expired-Same none tr h = h
  deadline_expired-Same (some d) tr h = ground arith

  sleep_backoff-Same :
      (b : ℕ) (tr : Trace)
      → Same w fds maps names tr
      → Same w fds maps names (sleep_backoff os b tr).1
  unfolding sleep_backoff
  sleep_backoff-Same b tr h = ground arith

  module _ (again : ℕ → Io (Option ℕ))
      (keeps : (b : ℕ) (t : Trace)
        → Same w fds maps names t
        → Same w fds maps names (again b t).1) where
    round_sleep-Same :
        (b : ℕ) (tr : Trace)
        → Same w fds maps names tr
        → Same w fds maps names (round_sleep os again b tr).1
    unfolding round_sleep
    round_sleep-Same b tr h =
        if-holds (λ out. Same w fds maps names out.1) ((sleep_backoff os b tr).0.0 != success)
          (pure (some (sleep_backoff os b tr).0.0)) (again (sleep_backoff os b tr).0.1)
          (sleep_backoff os b tr).1 (λ _. sleep_backoff-Same b tr h)
          λ _. keeps _ _ (sleep_backoff-Same b tr h)

    size_seen-Same :
        (b : ℕ) (st : Stat) (tr : Trace)
        → Same w fds maps names tr
        → Same w fds maps names (size_seen os again b st tr).1
    unfolding size_seen
    size_seen-Same b st tr h =
        if-holds (λ out. Same w fds maps names out.1) (not (stat_permitted os.geteuid (some st)))
          (pure (some eacces))
          (if leb header_bytes st.size then pure (some success) else round_sleep os again b) tr
          (λ _. h)
          λ _.
            if-holds (λ out. Same w fds maps names out.1) (leb header_bytes st.size)
              (pure (some success)) (round_sleep os again b) tr (λ _. h)
              λ _. round_sleep-Same b tr h

    size_stat-Same :
        (fd b : ℕ) (tr : Trace)
        → Same w fds maps names tr
        → Same w fds maps names (size_stat os again fd b tr).1
    unfolding size_stat
    size_stat-Same fd b tr h =
        attempt-holds (λ out. Same w fds maps names out.1) (λ t. os.fstat t fd) (Event.fstat fd)
          (λ e. pure (some e)) (size_seen os again b) tr (λ e. h) λ st. size_seen-Same b st _ h

    state_seen-Same :
        (b state : ℕ) (tr : Trace)
        → Same w fds maps names tr
        → Same w fds maps names (state_seen os again b state tr).1
    unfolding state_seen
    state_seen-Same b state tr h =
        if-holds (λ out. Same w fds maps names out.1) (state == state_ready) (pure (some success))
          (if state == state_broken then pure (some error_broken) else round_sleep os again b) tr
          (λ _. h)
          λ _.
            if-holds (λ out. Same w fds maps names out.1) (state == state_broken)
              (pure (some error_broken)) (round_sleep os again b) tr (λ _. h)
              λ _. round_sleep-Same b tr h

  pub wait_size-Same :
      (fuel fd : ℕ) (d : Option Deadline) (b : ℕ) (tr : Trace)
      → Same w fds maps names tr
      → Same w fds maps names (wait_size os fuel fd d b tr).1
  unfolding wait_size
  wait_size-Same zero fd d b tr h = h
  wait_size-Same (suc fuel) fd d b tr h =
      if-holds (λ out. Same w fds maps names out.1) (deadline_expired os d tr).0
        (pure (some error_not_ready)) (size_stat os (wait_size os fuel fd d) fd b)
        (deadline_expired os d tr).1 (λ _. deadline_expired-Same d tr h)
        λ _.
          size_stat-Same (wait_size os fuel fd d) (wait_size-Same fuel fd d) fd b _
            (deadline_expired-Same d tr h)

  pub wait_ready-Same :
      (fuel window : ℕ) (d : Option Deadline) (b : ℕ) (tr : Trace)
      → Same w fds maps names tr
      → Same w fds maps names (wait_ready os fuel window d b tr).1
  unfolding wait_ready
  wait_ready-Same zero window d b tr h = h
  wait_ready-Same (suc fuel) window d b tr h =
      if-holds (λ out. Same w fds maps names out.1) (deadline_expired os d tr).0
        (pure (some error_not_ready))
        (perform (λ t. os.load_state t window) (Event.load_state window)
          >>= state_seen os (wait_ready os fuel window d) b)
        (deadline_expired os d tr).1 (λ _. deadline_expired-Same d tr h)
        λ _.
          state_seen-Same (wait_ready os fuel window d) (wait_ready-Same fuel window d) b
            (os.load_state (deadline_expired os d tr).1 window)
            (Event.load_state window (os.load_state (deadline_expired os d tr).1 window)
              ∷ (deadline_expired os d tr).1)
            (deadline_expired-Same d tr h)
