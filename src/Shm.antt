-- ===== src/Shm.antt =====
-- src/core/posixipc_shm.c: the segments. posixipc_shm_create and the operations on a handle stand
-- here, the names and the comparison of headers in Name and Compare, posixipc_shm_attach in Attach.
pub mod Held
pub mod Name
pub mod Compare
pub mod Create
pub mod Attach
pub mod OpenOrCreate
pub mod Pointer
use Prim.Native.Nat.{bit_and}
use posixipc.Prelude.{
  ℕ, suc, ◌+◌, ◌-◌, ◌%◌, Bool, true, false, not, ◌&&◌, ◌||◌, Option, none, some, List, [], ◌∷◌,
  is_null, length, ltb, leb, ◌==◌, ◌!=◌, if◌then◌else◌,
}
use posixipc.Codes.{success, einval, enomem, eacces}
use posixipc.Word.{add32}
use posixipc.Layout.Digest.{Slot}
use posixipc.Layout.{Expect, header_bytes}
use posixipc.Os.{
  Os, Ret, ok, fail, Stat, Header, Event, Trace, Io, pure, ◌>>=◌, ◌>>◌, perform, branch, attempt,
  status_of,
}
use posixipc.Os
use posixipc.Shm.Name.{validate_name}

-- POSIXIPC_STATE_UNINIT and the other states of a header
abbrev pub state_uninit : ℕ
state_uninit = 0

abbrev pub state_initializing : ℕ
state_initializing = 1

abbrev pub state_ready : ℕ
state_ready = 2

abbrev pub state_broken : ℕ
state_broken = 3

abbrev pub shm_magic : ℕ
shm_magic = 0x50495043

-- `posixipc_shm`; `none` is a NULL pointer. The header is read through `Os.load_header` at `hdr`.
pub record Handle : Type 0 where
  pub map : Option ℕ
  pub map_len : ℕ
  pub hdr : Option ℕ
  pub name : Option Os.Name

-- `reset_handle`
abbrev pub reset_handle : Handle
reset_handle = record { map = none; map_len = 0; hdr = none; name = none }

-- the handle of a segment that is mapped
abbrev pub mapped_handle : ℕ → ℕ → Option Os.Name → Handle
mapped_handle map len copy = record { map = some map; map_len = len; hdr = some map; name = copy }

-- `none` for a NULL `st`
pub stat_permitted : ℕ → Option Stat → Bool
stat_permitted euid none = false
stat_permitted euid (some st) =
    if st.uid != euid then false else if bit_and st.mode 63 != 0 then false else true

-- what `write_header` stores
pub header_of : ℕ → Expect → Header
header_of magic_wire expect = record {
  magic = magic_wire;
  layout_version = expect.layout_version;
  slot_count = expect.slot_count;
  abi_tag = expect.abi_tag;
  flags = expect.flags;
  total_size = expect.total_size;
  directory_bytes = expect.directory_bytes;
  state = state_uninit;
  layout_digest = expect.layout_digest;
}

module _ (os : Os) where
  pub magic_wire : ℕ
  magic_wire = os.htobe32 shm_magic

  -- the calls of the sources, one by one
  abbrev pub shm_create : Os.Name → Io (Ret ℕ)
  shm_create name = perform (λ tr. os.shm_create tr name) (Event.shm_create name)

  abbrev pub shm_open : Os.Name → Io (Ret ℕ)
  shm_open name = perform (λ tr. os.shm_open tr name) (Event.shm_open name)

  abbrev pub shm_unlink : Os.Name → Io (Ret (Unit {0}))
  shm_unlink name = perform (λ tr. os.shm_unlink tr name) (Event.shm_unlink name)

  abbrev pub fstat : ℕ → Io (Ret Stat)
  fstat fd = perform (λ tr. os.fstat tr fd) (Event.fstat fd)

  abbrev pub ftruncate : ℕ → ℕ → Io (Ret (Unit {0}))
  ftruncate fd len = perform (λ tr. os.ftruncate tr fd len) (Event.ftruncate fd len)

  abbrev pub mmap : ℕ → ℕ → Io (Ret ℕ)
  mmap fd len = perform (λ tr. os.mmap tr fd len) (Event.mmap fd len)

  abbrev pub munmap : ℕ → ℕ → Io (Ret (Unit {0}))
  munmap p len = perform (λ tr. os.munmap tr p len) (Event.munmap p len)

  abbrev pub close : ℕ → Io (Ret (Unit {0}))
  close fd = perform (λ tr. os.close tr fd) (Event.close fd)

  abbrev pub malloc : ℕ → Io (Option ℕ)
  malloc n = perform (λ tr. os.malloc tr n) (Event.malloc n)

  abbrev pub store_state : ℕ → ℕ → Io (Unit {0})
  store_state p n = perform (λ _. tt) (λ _. Event.store_state p n)

  write_header : ℕ → Expect → Io (Unit {0})
  unfolding header_of magic_wire
  write_header p expect =
      perform (λ _. tt) (λ _. Event.write_header p (header_of magic_wire expect))

  write_directory : ℕ → Expect → Io ℕ
  write_directory p expect = if expect.slot_count == 0 then pure success else elim (expect.slots) [
    | none ↦ pure einval
    | some slots ↦ perform (λ _. success) (λ _. Event.write_directory p slots)
  ]

  -- The status and the copy of the name, which takes a byte more for its NUL.
  dup_name : Os.Name → Io (ℕ × Option Os.Name)
  dup_name name = do
    copy ← malloc (length name + 1)
    if is_null copy then pure (enomem, none) else pure (success, some name)

  -- the label `fail` of `posixipc_shm_create`
  create_fail : Option ℕ → Option ℕ → Os.Name → ℕ → ℕ → Io (ℕ × Handle)
  create_fail fd map name total rc = do
    elim fd [ none ↦ pure tt | some n ↦ do close n; pure tt ]
    elim map [ none ↦ pure tt | some p ↦ do munmap p total; pure tt ]
    shm_unlink name
    pure (rc, reset_handle)

  -- from the stores to the new segment on, its descriptor closed
  create_stored : Os.Name → Expect → ℕ → Io (ℕ × Handle)
  unfolding write_header write_directory dup_name create_fail
  create_stored name expect map = do
    write_header map expect
    rc ← write_directory map expect
    if rc != success then create_fail none (some map) name expect.total_size rc else do
      store_state map state_initializing
      (rc', copy) ← dup_name name
      if rc' != success
          then create_fail none (some map) name expect.total_size rc'
          else pure (success, mapped_handle map expect.total_size copy)

  -- from `close` on, the new object mapped at `map`
  create_mapped : Os.Name → Expect → ℕ → ℕ → Io (ℕ × Handle)
  unfolding create_stored create_fail
  create_mapped name expect fd map =
      attempt (close fd) (create_fail none (some map) name expect.total_size)
        λ _. create_stored name expect map

  -- from `ftruncate` on
  create_sized : Os.Name → Expect → ℕ → Unit {0} → Io (ℕ × Handle)
  unfolding create_mapped create_fail
  create_sized name expect fd _ =
      attempt (mmap fd expect.total_size) (create_fail (some fd) none name expect.total_size)
        (create_mapped name expect fd)

  -- from the test of the owner and the mode on
  create_permitted : Os.Name → Expect → ℕ → Stat → Io (ℕ × Handle)
  unfolding create_sized create_fail stat_permitted
  create_permitted name expect fd st =
      if not (stat_permitted os.geteuid (some st))
      then create_fail (some fd) none name expect.total_size eacces
      else attempt (ftruncate fd expect.total_size)
          (create_fail (some fd) none name expect.total_size) (create_sized name expect fd)

  -- from `fstat` on, the new object open at `fd`
  create_opened : Os.Name → Expect → ℕ → Io (ℕ × Handle)
  unfolding create_permitted create_fail
  create_opened name expect fd =
      attempt (fstat fd) (create_fail (some fd) none name expect.total_size)
        (create_permitted name expect fd)

  -- `posixipc_shm_create`; `none` for a NULL `name`, `expect` or `out`. The handle is what `*out`
  -- holds afterwards.
  pub create : Option Os.Name → Option Expect → Option Handle → Io (ℕ × Option Handle)
  unfolding create_opened
  create name expect none = pure (einval, none)
  create name none (some h) = pure (einval, some h)
  create name (some expect) (some h) =
      let rc = validate_name name in
      if rc != success
      then pure (rc, some reset_handle)
      else if ltb expect.total_size header_bytes
      then pure (einval, some reset_handle)
      else elim name [
        | none ↦ pure (einval, some reset_handle)
        | some n ↦
            attempt (shm_create n) (λ e. pure (e, some reset_handle))
              λ fd. do (status, handle) ← create_opened n expect fd; pure (status, some handle)
      ]

  -- `posixipc_shm_publish` and `posixipc_shm_mark_broken`: a store to the header's state
  unfoldable pub set_state : ℕ → Option Handle → Io ℕ
  set_state state none = pure einval
  set_state state (some h) = elim (h.hdr) [
    | none ↦ pure einval
    | some p ↦ do store_state p state; pure success
  ]

  unfoldable pub publish : Option Handle → Io ℕ
  unfolding set_state
  publish h = set_state state_ready h

  pub mark_broken : Option Handle → Io ℕ
  unfolding set_state
  mark_broken h = set_state state_broken h

  -- the status and the handle afterwards
  unfoldable pub close_handle : Option Handle → Io (ℕ × Option Handle)
  close_handle none = pure (success, none)
  close_handle (some h) = elim (h.map) [
    | none ↦ pure (success, some h)
    | some p ↦
        attempt (munmap p h.map_len) (λ e. pure (e, some h)) λ _. pure (success, some reset_handle)
  ]

  pub unlink : Option Os.Name → Io ℕ
  unlink name =
      let rc = validate_name name in
      if rc != success then pure rc else elim name [
        | none ↦ pure einval
        | some n ↦ attempt (shm_unlink n) (λ e. pure e) λ _. pure success
      ]
