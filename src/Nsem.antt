-- ===== src/Nsem.antt =====
-- src/core/posixipc_nsem.c. `have` is POSIXIPC_HAVE_SEM_OPEN; without it every function returns
-- ENOTSUP.
use posixipc.Prelude.{ℕ, suc, Bool, Option, none, some, ◌!=◌, if◌then◌else◌}
use posixipc.Codes.{success, einval, enotsup}
use posixipc.Os.{ok, fail, Name}
use posixipc.Shm.Name.{validate_nsem_name}
use posixipc.Calls.{Reply, Calls, return, ◌>>=◌, call, ask}

pub data Call : Type 0 where
  -- with O_CREAT | O_EXCL and a value, and without
  open_new : Name → ℕ → Call
  open_old : Name → Call
  close : ℕ → Call
  unlink : Name → Call

module _ (reply value : Reply Call) (have : Bool) (libc_family : ℕ) where
  -- Of an `out` that is not NULL: the status and what `*out` holds, NULL before the call.
  open_named : Option Name → (Name → Call) → Calls Call (ℕ × Option ℕ)
  open_named name how =
      let rc = validate_nsem_name libc_family name in
      if rc != success then return (rc, none) else elim name [
        | none ↦ return (einval, none)
        | some n ↦ do
          r ← ask reply value (how n)
          elim r [ ok s ↦ return (success, some s) | fail e ↦ return (suc e, none) ]
      ]

  -- `out` is what `*out` holds, `none` for a NULL `out`.
  nsem_open_with :
      Option Name → Option (Option ℕ) → (Name → Call) → Calls Call (ℕ × Option (Option ℕ))
  unfolding open_named
  nsem_open_with name none how = return (if have then einval else enotsup, none)
  nsem_open_with name (some s) how =
      if have
      then (do (rc, s') ← open_named name how; return (rc, some s'))
      else return (enotsup, some s)

  pub nsem_create : Option Name → ℕ → Option (Option ℕ) → Calls Call (ℕ × Option (Option ℕ))
  unfolding nsem_open_with
  nsem_create name count out = nsem_open_with name out (λ n. Call.open_new n count)

  pub nsem_attach : Option Name → Option (Option ℕ) → Calls Call (ℕ × Option (Option ℕ))
  unfolding nsem_open_with
  nsem_attach name out = nsem_open_with name out Call.open_old

  pub nsem_close : Option ℕ → Calls Call ℕ
  nsem_close none = return (if have then einval else enotsup)
  nsem_close (some s) = if have then call reply (Call.close s) else return enotsup

  pub nsem_unlink : Option Name → Calls Call ℕ
  nsem_unlink name =
      if have
      then (let rc = validate_nsem_name libc_family name in
          if rc != success
          then return rc
          else elim name [ none ↦ return einval | some n ↦ call reply (Call.unlink n) ])
      else return enotsup
