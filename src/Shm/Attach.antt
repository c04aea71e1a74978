-- ===== src/Shm/Attach.antt =====
-- posixipc_shm_attach of src/core/posixipc_shm.c. Its two loops run on fuel: a result of `none` says
-- that the fuel ran out.
pub mod Loops
pub mod Laws
pub mod Ends
use posixipc.Prelude.{
  ℕ, zero, suc, ◌+◌, ◌*◌, false, not, ◌&&◌, Option, none, some, ltb, leb, ◌==◌, ◌!=◌, if◌then◌else◌,
}
use posixipc.Codes.{
  success, einval, eacces, eintr, error_layout_mismatch, error_not_ready, error_broken,
}
use posixipc.Layout.{Expect, header_bytes}
use posixipc.Os.{
  Os, Ret, ok, fail, Stat, Header, Event, Trace, Io, pure, ◌>>=◌, ◌>>◌, perform, branch, attempt,
  status_of,
}
use posixipc.Os
use posixipc.Time.{Deadline, deadline_expired}
use posixipc.Shm.Name.{validate_name}
use posixipc.Shm.Compare.{compare_expect}
use posixipc.Shm.{
  Handle, reset_handle, mapped_handle, stat_permitted, magic_wire, shm_open, fstat, mmap, munmap,
  close, dup_name, state_ready, state_broken,
}

-- the milliseconds that `sleep_backoff` sleeps, and what it leaves in `*n`
pub backoff_ms : ℕ → ℕ
backoff_ms n = if ltb n 1 then 1 else if ltb 10 n then 10 else n

pub next_backoff : ℕ → ℕ
unfolding backoff_ms
next_backoff n = let ms = backoff_ms n in if ltb ms 10 then ms + 1 else 10

module _ (os : Os) where
  -- the status and the new `*n`
  pub sleep_backoff : ℕ → Io (ℕ × ℕ)
  unfolding backoff_ms next_backoff
  sleep_backoff n = do
    r ←
        perform (λ tr. os.nanosleep tr (backoff_ms n * 1_000_000))
          (Event.nanosleep (backoff_ms n * 1_000_000))
    if status_of r != 0 && status_of r != eintr
        then pure (status_of r, next_backoff n)
        else pure (success, next_backoff n)

  -- the label `fail`; the descriptor, the window and the map are `none` where they are not held
  pub attach_fail : Option ℕ → Option ℕ → Option ℕ → ℕ → ℕ → Io (ℕ × Handle)
  attach_fail fd window map total rc = do
    elim fd [ none ↦ pure tt | some n ↦ do close os n; pure tt ]
    elim window [ none ↦ pure tt | some p ↦ do munmap os p header_bytes; pure tt ]
    elim map [
      | none ↦ pure tt
      | some p ↦ do munmap os p (if total != 0 then total else header_bytes); pure tt
    ]
    pure (rc, reset_handle)

  -- The end of a round of either loop; `again` is the loop.
  pub round_sleep : (ℕ → Io (Option ℕ)) → ℕ → Io (Option ℕ)
  unfolding sleep_backoff
  round_sleep again backoff = do
    (rc, backoff') ← sleep_backoff backoff
    if rc != success then pure (some rc) else again backoff'

  -- a round of the first loop from the test of the owner on
  pub size_seen : (ℕ → Io (Option ℕ)) → ℕ → Stat → Io (Option ℕ)
  unfolding stat_permitted round_sleep
  size_seen again backoff st =
      if not (stat_permitted os.geteuid (some st))
      then pure (some eacces)
      else if leb header_bytes st.size
      then pure (some success)
      else round_sleep again backoff

  -- a round of the first loop behind the test of the deadline
  pub size_stat : (ℕ → Io (Option ℕ)) → ℕ → ℕ → Io (Option ℕ)
  unfolding size_seen
  size_stat again fd backoff = attempt (fstat os fd) (λ e. pure (some e)) (size_seen again backoff)

  -- The first loop, until the object has its header: 0, or the status to fail with.
  pub wait_size : ℕ → ℕ → Option Deadline → ℕ → Io (Option ℕ)
  unfolding size_stat
  wait_size zero fd deadline backoff = pure none
  wait_size (suc fuel) fd deadline backoff = do
    expired ← deadline_expired os deadline
    if expired
        then pure (some error_not_ready)
        else size_stat (wait_size fuel fd deadline) fd backoff

  -- a round of the second loop behind the load of the state
  pub state_seen : (ℕ → Io (Option ℕ)) → ℕ → ℕ → Io (Option ℕ)
  unfolding round_sleep
  state_seen again backoff state =
      if state == state_ready
      then pure (some success)
      else if state == state_broken
      then pure (some error_broken)
      else round_sleep again backoff

  -- The second loop, until the header's state is READY.
  pub wait_ready : ℕ → ℕ → Option Deadline → ℕ → Io (Option ℕ)
  unfolding state_seen
  wait_ready zero window deadline backoff = pure none
  wait_ready (suc fuel) window deadline backoff = do
    expired ← deadline_expired os deadline
    if expired then pure (some error_not_ready) else do
      state ← perform (λ tr. os.load_state tr window) (Event.load_state window)
      state_seen (wait_ready fuel window deadline) backoff state

  -- behind `compare_expect`
  pub attach_named : Os.Name → ℕ → ℕ → Io (ℕ × Handle)
  unfolding dup_name attach_fail
  attach_named name total map = do
    (rc, copy) ← dup_name os name
    if rc != success
        then attach_fail none none (some map) total rc
        else pure (success, mapped_handle map total copy)

  -- from `compare_expect` on, the segment mapped at `map` and its descriptor closed
  pub attach_compared : Os.Name → Option Expect → ℕ → ℕ → Io (ℕ × Handle)
  unfolding compare_expect magic_wire attach_named attach_fail
  attach_compared name expect total map = do
    hdr ← perform (λ tr. os.load_header tr map) (Event.load_header map)
    dir ←
        perform (λ tr. os.load_directory tr (map + header_bytes) hdr.slot_count)
          (Event.load_directory (map + header_bytes))
    let rc = compare_expect (magic_wire os) hdr (some dir) expect in
        if rc != success
        then attach_fail none none (some map) total rc
        else attach_named name total map

  -- from `close` on
  pub attach_mapped : Os.Name → Option Expect → ℕ → ℕ → ℕ → Io (ℕ × Handle)
  unfolding attach_compared attach_fail
  attach_mapped name expect fd total map =
      attempt (close os fd) (attach_fail none none (some map) total)
        λ _. attach_compared name expect total map

  -- from the second `mmap` on, the window unmapped
  pub attach_sized : Os.Name → Option Expect → ℕ → ℕ → Io (ℕ × Handle)
  unfolding attach_mapped attach_fail
  attach_sized name expect fd total =
      attempt (mmap os fd total) (attach_fail (some fd) none none total)
        (attach_mapped name expect fd total)

  -- the tests of the size, by a second `fstat`
  pub attach_stat : Os.Name → Option Expect → ℕ → ℕ → ℕ → Stat → Io (ℕ × Handle)
  unfolding attach_sized attach_fail
  attach_stat name expect fd window total st =
      if ltb st.size total
      then attach_fail (some fd) (some window) none total error_layout_mismatch
      else if elim expect [ none ↦ false | some e ↦ total != e.total_size ]
      then attach_fail (some fd) (some window) none total error_layout_mismatch
      else do munmap os window header_bytes; attach_sized name expect fd total

  -- behind the second loop
  pub attach_ready : Os.Name → Option Expect → ℕ → ℕ → Io (ℕ × Handle)
  unfolding attach_stat attach_fail
  attach_ready name expect fd window = do
    hdr ← perform (λ tr. os.load_header tr window) (Event.load_header window)
    if ltb hdr.total_size header_bytes
        then attach_fail (some fd) (some window) none hdr.total_size error_layout_mismatch
        else attempt (fstat os fd) (attach_fail (some fd) (some window) none hdr.total_size)
            (attach_stat name expect fd window hdr.total_size)

  -- what a loop's status leads to
  pub proceed :
      Option ℕ → (ℕ → Io (ℕ × Handle)) → Io (Option (ℕ × Handle)) → Io (Option (ℕ × Handle))
  proceed none failing going = pure none
  proceed (some rc) failing going =
      if rc != success then (do r ← failing rc; pure (some r)) else going

  -- the second loop and what follows it
  pub attach_window :
      ℕ → Os.Name → Option Expect → Option Deadline → ℕ → ℕ → Io (Option (ℕ × Handle))
  unfolding wait_ready attach_ready attach_fail proceed
  attach_window fuel name expect deadline fd window = do
    waited ← wait_ready fuel window deadline 1
    proceed waited (attach_fail (some fd) (some window) none 0)
        do r ← attach_ready name expect fd window; pure (some r)

  -- the first loop and what follows it
  pub attach_opened : ℕ → Os.Name → Option Expect → Option Deadline → ℕ → Io (Option (ℕ × Handle))
  unfolding wait_size attach_window attach_fail proceed
  attach_opened fuel name expect deadline fd = do
    waited ← wait_size fuel fd deadline 1
    proceed waited (attach_fail (some fd) none none 0) (
        attempt (mmap os fd header_bytes)
          (λ e. do r ← attach_fail (some fd) none none 0 e; pure (some r))
          (attach_window fuel name expect deadline fd))

  -- `posixipc_shm_attach`; `none` for a NULL `name`, `expect`, `deadline` or `out`. The handle is
  -- what `*out` holds afterwards.
  unfoldable pub attach :
      ℕ
      → Option Os.Name
      → Option Expect
      → Option Deadline
      → Option Handle
      → Io (Option (ℕ × Handle))
  unfolding attach_opened
  attach fuel name expect deadline none = pure (some (einval, reset_handle))
  attach fuel name expect deadline (some h) =
      let rc = validate_name name in
      if rc != success then pure (some (rc, reset_handle)) else elim name [
        | none ↦ pure (some (einval, reset_handle))
        | some n ↦
            attempt (shm_open os n) (λ e. pure (some (e, reset_handle)))
              (attach_opened fuel n expect deadline)
      ]
