-- ===== src/Memfd.antt =====
-- src/core/posixipc_memfd.c. A descriptor of `none` is a negative one; of a failed `strdup` the
-- status is not 0. `have` is POSIXIPC_HAVE_MEMFD_CREATE.
pub mod Laws
use mathlib.Core.Option
use posixipc.Prelude.{
  ◌-◌, ℕ, suc, Bool, ◌||◌, ◌&&◌, Option, none, some, List, [], ◌∷◌, ltb, ◌==◌, ◌!=◌, if◌then◌else◌,
}
use posixipc.Codes.{success, einval, enomem, enosys}
use posixipc.Os.{Ret, ok, fail, Name}
use posixipc.Calls.{Reply, Calls, return, ◌>>=◌, ◌>>◌, call, ask}

-- `posixipc_memfd`
pub record Memfd : Type 0 where
  pub map : Option ℕ
  pub size : ℕ
  pub fd : Option ℕ
  pub name : Option Name

pub data Call : Type 0 where
  anonymous : Name → Call
  ftruncate : ℕ → ℕ → Call
  mmap : ℕ → ℕ → Call
  munmap : ℕ → ℕ → Call
  close : ℕ → Call
  strdup : Name → Call

-- after `memset(out, 0, sizeof(*out))`
abbrev pub zeroed : Memfd
zeroed = record { map = none; size = 0; fd = some 0; name = none }

-- what `posixipc_memfd_close` leaves
abbrev pub closed : Memfd
closed = record { map = none; size = 0; fd = none; name = none }

-- "posixipc"
abbrev pub default_label : Name
default_label = 112 ∷ 111 ∷ 115 ∷ 105 ∷ 120 ∷ 105 ∷ 112 ∷ 99 ∷ []

abbrev pub label_of : Option Name → Name
label_of none = default_label
label_of (some []) = default_label
label_of (some (b ∷ bs)) = b ∷ bs

module _ (reply value : Reply Call) where
  memfd_map : ℕ → ℕ → Calls Call (Ret ℕ)
  memfd_map fd size =
      if size == 0 then return (fail (einval - 1)) else ask reply value (Call.mmap fd size)

  -- the copy of the name, if there is one, and what is stored through `out`
  memfd_named : ℕ → ℕ → Option Name → Memfd → ℕ → Calls Call (ℕ × Memfd)
  memfd_named fd size none out map =
      return (success, record { map = some map; size = size; fd = some fd; name = none })
  memfd_named fd size (some n) out map = do
    rc ← call reply (Call.strdup n)
    if rc != success
        then (do call reply (Call.munmap map size); return (enomem, out))
        else return (success, record { map = some map; size = size; fd = some fd; name = some n })

  -- `none` for a NULL `out`; else the status and what `*out` holds
  pub memfd_from_fd : Option ℕ → ℕ → Option Name → Option Memfd → Calls Call (ℕ × Option Memfd)
  unfolding memfd_map memfd_named
  memfd_from_fd fd size name none = return (einval, none)
  memfd_from_fd none size name (some out) = return (einval, some out)
  memfd_from_fd (some fd) size name (some out) = if size == 0 then return (einval, some out) else do
    r ← memfd_map fd size
    elim r [
      | fail e ↦ return (suc e, some out)
      | ok map ↦ do (rc, out') ← memfd_named fd size name out map; return (rc, some out')
    ]

  -- from `posixipc_memfd_from_fd` on, the new descriptor truncated
  memfd_sized : ℕ → ℕ → Option Name → Calls Call (ℕ × Option Memfd)
  unfolding memfd_from_fd
  memfd_sized fd size name = do
    (rc, out) ← memfd_from_fd (some fd) size (some (label_of name)) (some zeroed)
    if rc != success then (do call reply (Call.close fd); return (rc, out)) else return (rc, out)

  -- from `ftruncate` on
  memfd_opened : ℕ → ℕ → Option Name → Calls Call (ℕ × Option Memfd)
  unfolding memfd_sized
  memfd_opened fd size name = do
    rc ← call reply (Call.ftruncate fd size)
    if rc != success
        then (do call reply (Call.close fd); return (rc, some zeroed))
        else memfd_sized fd size name

  unfoldable pub memfd_create :
      Bool → Option Name → ℕ → Option Memfd → Calls Call (ℕ × Option Memfd)
  unfolding memfd_opened
  memfd_create have name size none = return (if have then einval else enosys, none)
  memfd_create have name size (some out) =
      if have
      then (if size == 0 then return (einval, some out) else do
        r ← ask reply value (Call.anonymous (label_of name))
        elim r [ fail e ↦ return (suc e, some zeroed) | ok fd ↦ memfd_opened fd size name ])
      else return (enosys, some out)

  -- the first part of `posixipc_memfd_close`: the status so far
  unmap : Memfd → Calls Call ℕ
  unmap m = elim (m.map) [
    | none ↦ return success
    | some p ↦ if ltb 0 m.size then call reply (Call.munmap p m.size) else return success
  ]

  -- the second part: the status of the first counts first
  close_fd : Memfd → ℕ → Calls Call ℕ
  close_fd m rc = elim (m.fd) [
    | none ↦ return rc
    | some fd ↦ do
      cr ← call reply (Call.close fd)
      return (if cr != success && rc == success then cr else rc)
  ]

  pub memfd_close : Option Memfd → Calls Call (ℕ × Option Memfd)
  unfolding unmap close_fd
  memfd_close none = return (einval, none)
  memfd_close (some m) = do rc ← unmap m; rc' ← close_fd m rc; return (rc', some closed)
