-- ===== src/Eventfd.antt =====
-- src/core/posixipc_eventfd.c. A descriptor of `none` is a negative one; `have` is
-- POSIXIPC_HAVE_EVENTFD.
use posixipc.Prelude.{ℕ, suc, Bool, Option, none, some, ◌!=◌, if◌then◌else◌}
use posixipc.Codes.{success, einval, eio, ebadf, enosys}
use posixipc.Os.{Ret, ok, fail}
use posixipc.Calls.{Reply, Calls, return, ◌>>=◌, call, ask}

pub data Call : Type 0 where
  eventfd : ℕ → ℕ → Call
  write : ℕ → ℕ → Call
  read : ℕ → Call
  close : ℕ → Call

-- `sizeof(uint64_t)`
abbrev pub sizeof_value : ℕ
sizeof_value = 8

-- what is returned of a `read` or a `write`, which give a number of bytes
abbrev pub status_of_count : Ret ℕ → ℕ
status_of_count (ok n) = if n != sizeof_value then eio else success
status_of_count (fail e) = suc e

module _ (reply value : Reply Call) where
  -- The status and the descriptor that is stored; `wants` is false for a NULL `fd`.
  pub eventfd_create : Bool → ℕ → ℕ → Bool → Calls Call (ℕ × Option ℕ)
  eventfd_create have initval flags wants =
      if have
      then (if wants
          then (do
            r ← ask reply value (Call.eventfd initval flags)
            elim r [ ok fd ↦ return (success, some fd) | fail e ↦ return (suc e, none) ])
          else return (einval, none))
      else return (enosys, none)

  pub eventfd_write : Option ℕ → ℕ → Calls Call ℕ
  eventfd_write none n = return ebadf
  eventfd_write (some fd) n = do r ← ask reply value (Call.write fd n); return (status_of_count r)

  -- The bytes are stored by the system; `wants` is false for a NULL `value`.
  pub eventfd_read : Option ℕ → Bool → Calls Call ℕ
  eventfd_read none wants = return einval
  eventfd_read (some fd) wants =
      if wants
      then (do r ← ask reply value (Call.read fd); return (status_of_count r))
      else return einval

  pub eventfd_close : Option ℕ → Calls Call ℕ
  eventfd_close none = return ebadf
  eventfd_close (some fd) = call reply (Call.close fd)
