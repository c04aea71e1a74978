-- ===== src/Queue/Put.antt =====
-- posixipc_queue_put of src/core/posixipc_queue.c against the bounded queue.
use native.Mathlib.Nat.{zero-add}
use native.Mathlib.Numerals.{add-one}
use mathlib.Core.Path.{ap₂}
use posixipc.Prelude.{
  ℕ, ◌+◌, ◌*◌, ◌%◌, ◌≤◌, ◌<◌, ◌≡◌, ◌≢◌, refl, ap, ◌∙◌, arith, inl, inr, some, List, [], ◌∷◌, ◌++◌,
  length, lt-cases, eq-cases, store,
}
use posixipc.Codes.{success, eagain}
use posixipc.Word.{add32}
use posixipc.Queue.{View, Memory, empty, ready, reserved_put, run_put, put, write_bytes}
use posixipc.Queue.Ring.{
  slot_at, slot_at-lt, slot_at-ne, slot_at-suc, window, length-window, window-ext, window-snoc,
  read_bytes-write_bytes, read_bytes-write_bytes_apart, slots_apart, item_at, contents, IsView,
  IsRing,
}
use posixipc.Queue.Fifo

-- the ring after a `put` that finds room
module _ (v : View) (m : Memory) (bytes : List ℕ) where
  abbrev pub put_done : Memory
  put_done = record {
    ctrl = record (m.ctrl) {
      tail = slot_at v.depth m.ctrl.head (m.ctrl.count + 1);
      count = m.ctrl.count + 1;
    };
    state = store (store m.state m.ctrl.tail reserved_put) m.ctrl.tail ready;
    payload = write_bytes m.payload (m.ctrl.tail * v.stride) v.item_size bytes;
  }

-- A full ring refuses the item.
module _ {v : View} {m : Memory} (w : IsView v) where
  put_full : (bytes : List ℕ) → v.depth ≤ m.ctrl.count → put (some v) (some bytes) m ≡ (eagain, m)
  unfolding put
  put_full bytes full = ground (arith, w.ctrl)

module _ {v : View} {m : Memory} (w : IsView v) (r : IsRing v m) where
  pub tail-lt : m.ctrl.tail < v.depth
  tail-lt = rw r.tail_at (slot_at-lt v.depth m.ctrl.head m.ctrl.count r.head_in r.count_in)

  tail_next :
      m.ctrl.count < v.depth
      → add32 m.ctrl.tail 1 % v.depth ≡ slot_at v.depth m.ctrl.head (m.ctrl.count + 1)
  tail_next room =
      ap (λ (t : ℕ). t % v.depth) (omega (arith, tail-lt, w.depth_word))
      ∙ ap (λ (t : ℕ). (t + 1) % v.depth) r.tail_at
      ∙ slot_at-suc v.depth m.ctrl.head m.ctrl.count

  pub put_runs :
      (bytes : List ℕ)
      → m.ctrl.count < v.depth
      → put (some v) (some bytes) m ≡ (success, put_done v m bytes)
  unfolding put run_put
  put_runs bytes room = ground (arith, w.ctrl, tail-lt, tail_next room)

  pub put_done-IsRing : (bytes : List ℕ) → m.ctrl.count < v.depth → IsRing v (put_done v m bytes)
  put_done-IsRing bytes room = record {
    head_in = r.head_in;
    count_in = omega arith;
    tail_at = refl;
    held = held;
    free = free;
  }
    where
      other : (k : ℕ) → k ≢ m.ctrl.count → k < v.depth → m.ctrl.tail ≢ slot_at v.depth m.ctrl.head k
      other k ne h =
          rw r.tail_at
            (slot_at-ne v.depth m.ctrl.head m.ctrl.count k r.head_in room h (omega arith))

      held :
          (k : ℕ)
          → k < m.ctrl.count + 1
          → store
              (store m.state m.ctrl.tail reserved_put)
              m.ctrl.tail
              ready
              (slot_at v.depth m.ctrl.head k)
            ≡ ready
      held k h = elim (eq-cases k m.ctrl.count) [
        | inl e ↦ ground (arith, r.tail_at, ap (slot_at v.depth m.ctrl.head) e)
        | inr ne ↦ ground (arith, other k ne, r.held k)
      ]

      free :
          (k : ℕ)
          → m.ctrl.count + 1 ≤ k
          → k < v.depth
          → store
              (store m.state m.ctrl.tail reserved_put)
              m.ctrl.tail
              ready
              (slot_at v.depth m.ctrl.head k)
            ≡ empty
      free k h h' = ground (arith, other k, r.free k)

  -- The copy of an item touches no item that is held.
  pub put_done-others :
      (bytes : List ℕ)
      → m.ctrl.count < v.depth
      → window v.depth (item_at v (put_done v m bytes)) m.ctrl.head 0 m.ctrl.count ≡ contents v m
  put_done-others bytes room =
      window-ext v.depth (item_at v (put_done v m bytes)) (item_at v m) m.ctrl.head 0 m.ctrl.count
        λ k p q.
          read_bytes-write_bytes_apart m.payload (m.ctrl.tail * v.stride) v.item_size
            (slot_at v.depth m.ctrl.head k * v.stride) v.item_size bytes
            (slots_apart m.ctrl.tail (slot_at v.depth m.ctrl.head k) v.item_size v.stride
              (apart k (omega arith)) w.item_in_slot)
    where
      apart : (k : ℕ) → k < m.ctrl.count → m.ctrl.tail ≢ slot_at v.depth m.ctrl.head k
      apart k h =
          rw r.tail_at (
            slot_at-ne v.depth m.ctrl.head m.ctrl.count k r.head_in room (omega arith)
              (omega arith))

  pub put_done-contents :
      (bytes : List ℕ)
      → m.ctrl.count < v.depth
      → length bytes ≡ v.item_size
      → contents v (put_done v m bytes) ≡ contents v m ++ bytes ∷ []
  put_done-contents bytes room len =
      ap (window v.depth (item_at v after) m.ctrl.head 0) (add-one m.ctrl.count)
      ∙ window-snoc v.depth (item_at v after) m.ctrl.head 0 m.ctrl.count
      ∙ ap₂ (λ (q : List (List ℕ)) (x : List ℕ). q ++ x ∷ []) (put_done-others bytes room) newest
    where
      after : Memory
      after = put_done v m bytes

      newest : item_at v after (slot_at v.depth m.ctrl.head (0 + m.ctrl.count)) ≡ bytes
      newest =
          rw (zero-add, ← r.tail_at, ← len)
            (read_bytes-write_bytes m.payload (m.ctrl.tail * v.stride) bytes)

  length-contents : length (contents v m) ≡ m.ctrl.count
  length-contents = length-window v.depth (item_at v m) m.ctrl.head 0 m.ctrl.count

  -- `posixipc_queue_put` of an item of the right size returns what the bounded queue returns, leaves
  -- its items in the ring, and keeps the invariant.
  pub put_refines :
      (bytes : List ℕ)
      → length bytes ≡ v.item_size
      → let (rc, m') = put (some v) (some bytes) m in
        ((rc, contents v m') ≡ Fifo.push v.depth (contents v m) bytes) × IsRing v m'
  unfolding Fifo.push
  put_refines bytes len = elim (lt-cases m.ctrl.count v.depth) [
    | inl room ↦
        rw (put_runs bytes room, put_done-contents bytes room len)
          (ground (arith, length-contents), put_done-IsRing bytes room)
    | inr full ↦ rw (put_full {v = v} {m = m} w bytes full) (ground (arith, length-contents), r)
  ]
