-- ===== src/Queue.antt =====
-- src/core/posixipc_queue.c: the ring in shared memory. A `View` holds the pointers of one process
-- (0 is NULL), and `Memory` what they point to, as one process sees it under the put lock: the
-- control word, the state word of each slot and the payload bytes by offset.
pub mod Size
pub mod Ring
pub mod Fifo
pub mod Init
pub mod Put
pub mod Get
pub mod Refine
pub mod Crash
pub mod Recover
pub mod System
use posixipc.Prelude.{
  ℕ, zero, suc, ◌+◌, ◌-◌, ◌*◌, ◌/◌, ◌%◌, Bool, ◌&&◌, ◌||◌, Option, none, some, List, [], ◌∷◌, ltb,
  leb, not, ◌==◌, ◌!=◌, if◌then◌else◌, get_or, store,
}
use posixipc.Codes.{success, einval, eagain}
use posixipc.Word.{u32_max, add32, sub32, mul32}
use posixipc.Align.{align_up}

-- POSIXIPC_QUEUE_EMPTY and the other slot states
abbrev pub empty : ℕ
empty = 0

abbrev pub reserved_put : ℕ
reserved_put = 1

abbrev pub reserved_get : ℕ
reserved_get = 2

abbrev pub ready : ℕ
ready = 3

-- `posixipc_queue_ctrl`
pub record Ctrl : Type 0 where
  pub head : ℕ
  pub tail : ℕ
  pub count : ℕ
  pub flags : ℕ
  pub depth : ℕ
  pub item_size : ℕ

-- `posixipc_queue_view`
pub record View : Type 0 where
  pub ctrl : ℕ
  pub state : ℕ
  pub payload : ℕ
  pub depth : ℕ
  pub item_size : ℕ
  pub stride : ℕ

pub record Memory : Type 0 where
  pub ctrl : Ctrl
  pub state : ℕ → ℕ
  pub payload : ℕ → ℕ

-- `sizeof(posixipc_queue_ctrl)`: six words
abbrev pub sizeof_ctrl : ℕ
sizeof_ctrl = 24

-- The sizes go by POSIXIPC_CACHELINE_BYTES, which the build configures.
module _ (cacheline : ℕ) where
  pub ctrl_bytes : ℕ
  ctrl_bytes = let n = align_up sizeof_ctrl cacheline in if n == 0 then cacheline else n

  pub state_bytes : ℕ → ℕ
  state_bytes depth =
      if depth == 0 || ltb (u32_max / 4) depth then 0 else align_up (mul32 depth 4) cacheline

  pub bytes_size : ℕ → ℕ → ℕ
  bytes_size depth item_size =
      if ltb depth 1 || ltb item_size 1
      then 0
      else let cb = ctrl_bytes in
        let sb = state_bytes depth in
        let stride = align_up item_size cacheline in
        if cb == 0 || sb == 0 || stride == 0
        then 0
        else if ltb (u32_max / stride) depth
        then 0
        else let payload = mul32 depth stride in
          if ltb (u32_max - sb) cb
          then 0
          else let total = add32 cb sb in
            if ltb (u32_max - payload) total then 0 else add32 total payload

  -- `bytes` is the start of the mapped block. The `View` is what is stored through `out`.
  pub map_view : ℕ → ℕ → ℕ → ℕ → ℕ × Option View
  map_view bytes nbytes depth item_size =
      if bytes == 0
      then (einval, none)
      else let need = bytes_size depth item_size in
        if need == 0 || ltb nbytes need
        then (einval, none)
        else let cb = ctrl_bytes in
          let sb = state_bytes depth in
          (
            success,
            some (record {
              ctrl = bytes;
              state = bytes + cb;
              payload = bytes + cb + sb;
              depth = depth;
              item_size = item_size;
              stride = align_up item_size cacheline;
            }),
          )

-- the loop of `posixipc_queue_init_ctrl`, from `i` with `n` rounds left
clear_states : ℕ → ℕ → (ℕ → ℕ) → ℕ → ℕ
clear_states zero i states = states
clear_states (suc n) i states = clear_states n (i + 1) (store states i empty)

pub init_ctrl : Option View → Memory → ℕ × Memory
unfolding clear_states
init_ctrl none m = (einval, m)
init_ctrl (some v) m = if v.ctrl == 0 || v.state == 0 then (einval, m) else (
  success,
  record m {
    ctrl = record {
      head = 0;
      tail = 0;
      count = 0;
      flags = 0;
      depth = v.depth;
      item_size = v.item_size;
    };
    state = clear_states v.depth 0 m.state;
  },
)

-- what the first loop of `posixipc_queue_recover` stores over the state word `st`
unfoldable pub settle : ℕ → ℕ
settle st =
    if st == reserved_put
    then empty
    else if st == reserved_get
    then ready
    else if st == ready
    then st
    else if st != empty
    then empty
    else st

-- whether that loop counts the slot
pub counts : ℕ → ℕ
counts st = if st == reserved_get then 1 else if st == ready then 1 else 0

-- the first loop, from `i` with `n` rounds left: the state words and the number of READY slots
pub settle_from : ℕ → ℕ → (ℕ → ℕ) → ℕ → (ℕ → ℕ) × ℕ
unfolding settle counts
settle_from zero i states n_ready = (states, n_ready)
settle_from (suc n) i states n_ready =
    settle_from n (i + 1) (store states i (settle (states i))) (add32 n_ready (counts (states i)))

-- the second loop: the first READY slot, or the head as it was
pub first_ready : ℕ → ℕ → (ℕ → ℕ) → ℕ → ℕ
first_ready zero i states head = head
first_ready (suc n) i states head =
    let rest = first_ready n (i + 1) states head in if states i == ready then i else rest

pub recover : Option View → Memory → ℕ × Memory
unfolding settle_from first_ready
recover none m = (einval, m)
recover (some v) m =
    if v.ctrl == 0 || v.state == 0
    then (einval, m)
    else let (states, n_ready) = settle_from v.depth 0 m.state 0 in
      if n_ready == 0
      then (
        success,
        record m { state = states; ctrl = record (m.ctrl) { count = n_ready; head = 0; tail = 0 } },
      )
      else let head = first_ready v.depth 0 states m.ctrl.head in
        (
          success,
          record m {
            state = states;
            ctrl = record (m.ctrl) {
              count = n_ready;
              head = head;
              tail = add32 head n_ready % v.depth;
            };
          },
        )

-- `memcpy` of `n` bytes to offset `off`
pub write_bytes : (ℕ → ℕ) → ℕ → ℕ → List ℕ → ℕ → ℕ
write_bytes mem off n bytes a =
    if leb off a && ltb a (off + n) then get_or bytes (a - off) 0 else mem a

-- `memcpy` of `n` bytes from offset `off`
unfoldable pub read_bytes : (ℕ → ℕ) → ℕ → ℕ → List ℕ
read_bytes mem off zero = []
read_bytes mem off (suc n) = mem off ∷ read_bytes mem (off + 1) n

-- The stores of `posixipc_queue_put` to slot `idx`, in the order of the code.
pub data PutStore : Type 0 where
  reserve copy publish advance_tail add_count : PutStore

pub put_store : View → ℕ → List ℕ → PutStore → Memory → Memory
unfolding write_bytes
put_store v idx bytes reserve m = record m { state = store m.state idx reserved_put }
put_store v idx bytes copy m = record m {
  payload = write_bytes m.payload (idx * v.stride) v.item_size bytes;
}
put_store v idx bytes publish m = record m { state = store m.state idx ready }
put_store v idx bytes advance_tail m = record m {
  ctrl = record (m.ctrl) { tail = add32 idx 1 % v.depth };
}
put_store v idx bytes add_count m = record m {
  ctrl = record (m.ctrl) { count = add32 m.ctrl.count 1 };
}

abbrev pub put_stores : List PutStore
put_stores = reserve ∷ copy ∷ publish ∷ advance_tail ∷ add_count ∷ []

pub run_put : View → ℕ → List ℕ → List PutStore → Memory → Memory
unfolding put_store
run_put v idx bytes [] m = m
run_put v idx bytes (s ∷ ss) m = run_put v idx bytes ss (put_store v idx bytes s m)

-- `none` for a NULL `data`
pub put : Option View → Option (List ℕ) → Memory → ℕ × Memory
unfolding run_put
put none bytes m = (einval, m)
put (some v) none m = (einval, m)
put (some v) (some bytes) m =
    if v.ctrl == 0
    then (einval, m)
    else if leb v.depth m.ctrl.count
    then (eagain, m)
    else let idx = m.ctrl.tail in
      if leb v.depth idx then (einval, m) else (success, run_put v idx bytes put_stores m)

-- The stores of `posixipc_queue_get` to the shared memory, in the order of the code. The payload
-- is copied out between the first and the second.
pub data GetStore : Type 0 where
  claim release advance_head sub_count : GetStore

pub get_store : View → ℕ → GetStore → Memory → Memory
get_store v idx claim m = record m { state = store m.state idx reserved_get }
get_store v idx release m = record m { state = store m.state idx empty }
get_store v idx advance_head m = record m {
  ctrl = record (m.ctrl) { head = add32 idx 1 % v.depth };
}
get_store v idx sub_count m = record m { ctrl = record (m.ctrl) { count = sub32 m.ctrl.count 1 } }

abbrev pub get_stores : List GetStore
get_stores = claim ∷ release ∷ advance_head ∷ sub_count ∷ []

pub run_get : View → ℕ → List GetStore → Memory → Memory
unfolding get_store
run_get v idx [] m = m
run_get v idx (s ∷ ss) m = run_get v idx ss (get_store v idx s m)

-- The bytes are what is copied to `data`; `wants` is false for a NULL `data`.
pub get : Option View → Bool → Memory → ℕ × Option (List ℕ) × Memory
unfolding run_get read_bytes
get none wants m = (einval, none, m)
get (some v) wants m =
    if v.ctrl == 0 || not wants
    then (einval, none, m)
    else if m.ctrl.count == 0
    then (eagain, none, m)
    else let idx = m.ctrl.head in
      if leb v.depth idx || m.state idx != ready then (einval, none, m) else (
        success,
        some (read_bytes m.payload (idx * v.stride) v.item_size),
        run_get v idx get_stores m,
      )

-- the count that is stored through `out`
pub qsize : Option View → Memory → ℕ × Option ℕ
qsize none m = (einval, none)
qsize (some v) m = if v.ctrl == 0 then (einval, none) else (success, some m.ctrl.count)
