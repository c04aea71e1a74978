-- ===== src/Bindings/Region.antt =====
-- src/bindings/py_shm.c: the object of a segment, how it is pinned and closed, and its buffers. A call
-- of Python that may fail is a parameter.
pub mod Create
pub mod Closing
pub mod Threads
use Prim.Native.Nat.{bit_and, bit_or}
use mathlib.Core.Option
use posixipc.Prelude.{
  ℕ, ◌+◌, ◌-◌, Bool, true, false, not, ◌&&◌, ◌||◌, Option, none, some, is_null, ltb, ◌==◌, ◌!=◌,
  if◌then◌else◌,
}
use posixipc.Codes.{success}
use posixipc.Word.{u32_max, add32, sub32, not32}
use posixipc.Config.{Config}
use posixipc.Os.{Os, Io, Trace, Event, pure, ◌>>=◌, ◌>>◌, perform}
use posixipc.Os
use posixipc.Calls.{clock_monotonic}
use posixipc.Time.{Deadline, deadline_from_seconds}
use posixipc.Layout.Digest.{abi_tag}
use posixipc.Layout.{Expect, layout_version, header_bytes}
use posixipc.Shm.{Handle, state_initializing, create, publish, mark_broken, close_handle, unlink}
use posixipc.Shm.Attach.{attach}
use posixipc.Shm.OpenOrCreate.{open_or_create}
use posixipc.Bindings.Errors.{Raised, Outcome, returned, raised, posixipc_err}
use posixipc.Bindings.Acquire.{Double, Value}

-- `PosixIPCSharedMemoryObject`
pub record Region : Type 0 where
  pub core : Handle
  pub pins : ℕ
  pub flags : ℕ
  pub created : Bool

abbrev pub State : Type 0
State = Region × Trace

abbrev pub flag_closed : ℕ
flag_closed = 8

unfoldable pub shm_is_closed : Region → Bool
shm_is_closed r = bit_and r.flags flag_closed != 0 || is_null r.core.map

-- the atomic operations on `pins` and on `flags`
unfoldable pub add_pin : Region → Region
add_pin r = record r { pins = add32 r.pins 1 }

pub posixipc_shmobj_unpin : Region → Region
posixipc_shmobj_unpin r = record r { pins = sub32 r.pins 1 }

pub set_closed : Region → Region
set_closed r = record r { flags = bit_or r.flags flag_closed }

pub clear_closed : Region → Region
clear_closed r = record r { flags = bit_and r.flags (not32 flag_closed) }

-- behind the pin
pub pin_checked : Region → Outcome Bool × Region
unfolding shm_is_closed posixipc_shmobj_unpin
pin_checked r =
    if shm_is_closed r
    then (raised (some Raised.closed_error), posixipc_shmobj_unpin r)
    else (returned true, r)

-- True stands for a result of 0, as in the functions below for None.
pub posixipc_shmobj_pin : Region → Outcome Bool × Region
unfolding add_pin pin_checked
posixipc_shmobj_pin r = pin_checked (add_pin r)

module _ (os : Os) where
  -- behind the test of the pins in `posixipc_shmobj_close`
  pub unmap : State → Outcome Bool × State
  unfolding clear_closed
  unmap (r, tr) =
      let ((rc, core), tr') = close_handle os (some (r.core)) tr in
      let r' = record r { core = Option.get_or core r.core } in
      if rc != success
      then (raised (posixipc_err rc), (clear_closed r', tr'))
      else (returned true, (r', tr'))

  -- behind the store of CLOSED in `posixipc_shmobj_close`
  pub close_marked : Bool → State → Outcome Bool × State
  unfolding clear_closed unmap
  close_marked force (r, tr) =
      if not force && ltb 0 r.pins
      then (raised (some Raised.buffer_error), (clear_closed r, tr))
      else unmap (r, tr)

  pub posixipc_shmobj_close : Bool → State → Outcome Bool × State
  unfolding shm_is_closed set_closed close_marked
  posixipc_shmobj_close force (r, tr) =
      if shm_is_closed r
      then (returned true, (set_closed r, tr))
      else close_marked force (set_closed r, tr)

  pub shm_unlink_name : Os.Name → Io (Outcome Bool)
  shm_unlink_name name = do
    rc ← unlink os (some name)
    if rc != success then pure (raised (posixipc_err rc)) else pure (returned true)

  pub shm_close : State → Outcome Bool × State
  unfolding posixipc_shmobj_close
  shm_close s = posixipc_shmobj_close false s

  -- the name of an object that is open
  pub open_name : Region → Outcome Os.Name
  unfolding shm_is_closed
  open_name r =
      if shm_is_closed r
      then raised (some Raised.closed_error)
      else elim (r.core.name) [ none ↦ raised (some Raised.closed_error) | some n ↦ returned n ]

  unlink_named : Outcome Os.Name → Io (Outcome Bool)
  unfolding shm_unlink_name
  unlink_named (raised e) = pure (raised e)
  unlink_named (returned n) = shm_unlink_name n

  pub shm_unlink : Region → Io (Outcome Bool)
  unfolding open_name unlink_named
  shm_unlink r = unlink_named (open_name r)

  pub shm_get_name : Region → Outcome Os.Name
  unfolding open_name
  shm_get_name r = open_name r

  pub shm_get_size : Region → Outcome ℕ
  unfolding shm_is_closed
  shm_get_size r =
      if shm_is_closed r then raised (some Raised.closed_error) else returned (r.core.map_len)

  pub shm_get_closed : Region → Bool
  unfolding shm_is_closed
  shm_get_closed r = shm_is_closed r

  -- `fills` says that `PyBuffer_FillInfo` succeeds; the buffer is the address and the length.
  pub fill_pinned : Bool → Outcome Bool × Region → Outcome (Option ℕ × ℕ) × Region
  unfolding posixipc_shmobj_unpin
  fill_pinned fills (raised e, r) = (raised e, r)
  fill_pinned false (returned b, r) = (raised (some Raised.buffer_error), posixipc_shmobj_unpin r)
  fill_pinned true (returned b, r) = (returned (r.core.map, r.core.map_len), r)

  pub shm_getbuffer : Bool → Region → Outcome (Option ℕ × ℕ) × Region
  unfolding shm_is_closed posixipc_shmobj_pin fill_pinned
  shm_getbuffer fills r =
      if shm_is_closed r
      then (raised (some Raised.closed_error), r)
      else fill_pinned fills (posixipc_shmobj_pin r)

  pub shm_releasebuffer : Region → Region
  unfolding posixipc_shmobj_unpin
  shm_releasebuffer r = posixipc_shmobj_unpin r

  -- what `shm_dealloc` does to the segment
  pub shm_dealloc : State → State
  unfolding shm_is_closed posixipc_shmobj_close
  shm_dealloc (r, tr) = if shm_is_closed r then (r, tr) else (posixipc_shmobj_close true (r, tr)).1
