-- ===== src/Bindings/Errors.antt =====
-- src/bindings/py_errors.c: the exceptions that the status codes raise.
use posixipc.Prelude.{ℕ, Option, none, some, ◌||◌, ◌==◌, leb, if◌then◌else◌}
use posixipc.Codes.{
  success, etimedout, ebusy, error_interrupted, error_not_ready, error_broken,
  error_layout_mismatch,
}

-- `pending` is an exception that Python has set already, as in a signal handler. Where assertions are on, `internal`
-- is an abort.
pub data Raised : Type 0 where
  closed_error unbound value_error type_error runtime_error no_memory not_recoverable pending
        timeout_error layout_mismatch buffer_error overflow_error index_error internal :
      Raised
  os_error : ℕ → Raised

pub posixipc_err : ℕ → Option Raised
posixipc_err rc =
    if rc == success
    then none
    else if rc == error_interrupted
    then some Raised.pending
    else if rc == error_not_ready
    then some Raised.timeout_error
    else if rc == error_broken || rc == error_layout_mismatch
    then some Raised.layout_mismatch
    else if rc == etimedout || rc == ebusy || leb 5000 rc
    then some Raised.internal
    else some (Raised.os_error rc)

-- how a call from Python ends: with a value, or with NULL and the exception that is set, if any is
pub data Outcome (A : Type 0) : Type 0 where
  returned : A → Outcome A
  raised : Option Raised → Outcome A
