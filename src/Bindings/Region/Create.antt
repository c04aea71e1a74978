-- ===== src/Bindings/Region/Create.antt =====
-- src/bindings/py_shm.c: how the object of a segment is made. A call of Python that may fail is a
-- parameter, and so is what an uninitialised local holds.
pub mod Making
pub mod Opening
use mathlib.Core.Option
use posixipc.Prelude.{
  ℕ, ◌+◌, ◌-◌, Bool, true, false, ◌||◌, Option, none, some, ltb, ◌==◌, ◌!=◌, if◌then◌else◌,
}
use posixipc.Codes.{success}
use posixipc.Word.{u32_max}
use posixipc.Config.{Config}
use posixipc.Os.{Os, Io, Trace, Event, pure, ◌>>=◌, ◌>>◌, perform}
use posixipc.Os
use posixipc.Calls.{clock_monotonic}
use posixipc.Time.{Deadline, deadline_from_seconds}
use posixipc.Layout.Digest.{abi_tag}
use posixipc.Layout.{Expect, layout_version, header_bytes}
use posixipc.Shm.{Handle, state_initializing, create, publish, mark_broken, close_handle, unlink}
use posixipc.Shm.Attach.{attach}
use posixipc.Shm.OpenOrCreate.{open_or_create}
use posixipc.Bindings.Errors.{Raised, Outcome, returned, raised, posixipc_err}
use posixipc.Bindings.Acquire.{Double, Value}
use posixipc.Bindings.Region.{Region}

-- `posixipc_shmobj_from_core`, where Python has the memory for the object
pub object_of : Handle → Bool → Region
object_of core created = record { core = core; pins = 0; flags = 0; created = created }

pub raw_expect : Config → ℕ → Expect
raw_expect c payload = record {
  layout_version = layout_version;
  slot_count = 0;
  abi_tag = abi_tag c;
  flags = 0;
  total_size = header_bytes + payload;
  directory_bytes = 0;
  layout_digest = 0;
  slots = none;
}

-- the test of a `Py_ssize_t`, of which `none` is one below zero
pub size_in_range : Option ℕ → Option ℕ
size_in_range none = none
size_in_range (some size) = if ltb (u32_max - header_bytes) size then none else some size

-- `none` for None; an object that is not a number sets an exception
pub parse_timeout_seconds : Value → Outcome (Option Double)
parse_timeout_seconds v = if v.is_none then returned none else elim (v.double) [
  | none ↦ raised (some Raised.pending)
  | some d ↦
      if d.seconds.is_nan || d.seconds.is_negative
      then raised (some Raised.value_error)
      else returned (some d)
]

module _ (os : Os) where
  -- `alloc` says that `tp_alloc` gives the object.
  pub posixipc_shmobj_from_core : Bool → Handle → Bool → Io (Outcome Region)
  unfolding object_of
  posixipc_shmobj_from_core true core created = pure (returned (object_of core created))
  posixipc_shmobj_from_core false core created = do
    close_handle os (some core)
    pure (raised (some Raised.no_memory))

  -- with what `parse_timeout_seconds` says
  pub deadline_parsed : Outcome (Option Double) → Io (Outcome (Option Deadline))
  deadline_parsed (raised e) = pure (raised e)
  deadline_parsed (returned none) = pure (returned none)
  deadline_parsed (returned (some d)) = do
    (rc, dl) ← deadline_from_seconds os clock_monotonic d.seconds true
    if rc != success then pure (raised (some (Raised.os_error rc))) else pure (returned dl)

  -- `none` for a NULL pointer
  pub deadline_from_timeout : Value → Io (Outcome (Option Deadline))
  unfolding parse_timeout_seconds deadline_parsed
  deadline_from_timeout v = deadline_parsed (parse_timeout_seconds v)

  -- `five` is what `PyFloat_FromDouble(5.0)` gives for a timeout that is left out.
  pub timeout_deadline : Option Value → Option Value → Io (Outcome (Option Deadline))
  unfolding deadline_from_timeout
  timeout_deadline five (some v) = deadline_from_timeout v
  timeout_deadline none none = pure (raised (some Raised.no_memory))
  timeout_deadline (some five) none = deadline_from_timeout five

  -- behind `posixipc_shm_create`, or `posixipc_shm_open_or_create` that created
  pub publish_new : Bool → Os.Name → Handle → Io (Outcome Region)
  unfolding posixipc_shmobj_from_core
  publish_new alloc name core = do
    rc ← publish os (some core)
    if rc == success then posixipc_shmobj_from_core alloc core true else do
      mark_broken os (some core)
      close_handle os (some core)
      unlink os (some name)
      pure (raised (posixipc_err rc))

  -- behind `posixipc_shm_attach`
  pub attach_object : Bool → Option (ℕ × Handle) → Io (Option (Outcome Region))
  unfolding posixipc_shmobj_from_core
  attach_object alloc none = pure none
  attach_object alloc (some (rc, core)) =
      if rc != success
      then pure (some (raised (posixipc_err rc)))
      else do o ← posixipc_shmobj_from_core alloc core false; pure (some o)

  -- the test of the state behind `posixipc_shm_open_or_create`
  pub is_initializing : Handle → Io Bool
  is_initializing core = elim (core.hdr) [
    | none ↦ pure false
    | some p ↦ do
      state ← perform (λ tr. os.load_state tr p) (Event.load_state p)
      pure (state == state_initializing)
  ]

  pub opened : Bool → Os.Name → Handle → Io (Outcome Region)
  unfolding is_initializing publish_new posixipc_shmobj_from_core
  opened alloc name core = do
    fresh ← is_initializing core
    if fresh then publish_new alloc name core else posixipc_shmobj_from_core alloc core false

  -- behind `posixipc_shm_open_or_create`, where `core` is the local that it stores to
  pub open_object : Bool → Os.Name → Option (ℕ × Option Handle) → Io (Option (Outcome Region))
  unfolding opened
  open_object alloc name none = pure none
  open_object alloc name (some (rc, none)) = pure (some (raised (posixipc_err rc)))
  open_object alloc name (some (rc, some core)) =
      if rc != success
      then pure (some (raised (posixipc_err rc)))
      else do o ← opened alloc name core; pure (some o)

  -- `local` is what `core` holds before the call.
  module _ (c : Config) (alloc : Bool) (local : Handle) where
    pub create_of_size : Os.Name → Option ℕ → Io (Outcome Region)
    unfolding raw_expect publish_new
    create_of_size name none = pure (raised (some Raised.value_error))
    create_of_size name (some size) = do
      (rc, core) ← create os (some name) (some (raw_expect c size)) (some local)
      if rc != success
          then pure (raised (posixipc_err rc))
          else publish_new alloc name (Option.get_or core local)

    pub shm_create : Os.Name → Option ℕ → Io (Outcome Region)
    unfolding create_of_size size_in_range
    shm_create name size = create_of_size name (size_in_range size)

    -- behind `posixipc_shm_attach`; `none` says that its loops ran out of fuel.
    pub attach_until : ℕ → Os.Name → Outcome (Option Deadline) → Io (Option (Outcome Region))
    unfolding attach_object
    attach_until fuel name (raised e) = pure (some (raised e))
    attach_until fuel name (returned dl) = do
      r ← attach os fuel (some name) none dl (some local)
      attach_object alloc r

    pub shm_attach_unchecked :
        ℕ → Option Value → Os.Name → Option Value → Io (Option (Outcome Region))
    unfolding attach_until timeout_deadline
    shm_attach_unchecked fuel five name timeout = do
      dl ← timeout_deadline five timeout
      attach_until fuel name dl

    pub open_until : ℕ → Os.Name → ℕ → Outcome (Option Deadline) → Io (Option (Outcome Region))
    unfolding raw_expect open_object
    open_until fuel name size (raised e) = pure (some (raised e))
    open_until fuel name size (returned dl) = do
      r ← open_or_create os fuel (some name) (some (raw_expect c size)) dl (some local)
      open_object alloc name r

    pub open_sized :
        ℕ → Option Value → Os.Name → Option ℕ → Option Value → Io (Option (Outcome Region))
    unfolding open_until timeout_deadline
    open_sized fuel five name none timeout = pure (some (raised (some Raised.value_error)))
    open_sized fuel five name (some size) timeout = do
      dl ← timeout_deadline five timeout
      open_until fuel name size dl

    pub shm_open_or_create :
        ℕ → Option Value → Os.Name → Option ℕ → Option Value → Io (Option (Outcome Region))
    unfolding open_sized size_in_range
    shm_open_or_create fuel five name size timeout =
        open_sized fuel five name (size_in_range size) timeout
