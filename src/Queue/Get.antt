-- ===== src/Queue/Get.antt =====
-- posixipc_queue_get of src/core/posixipc_queue.c against the bounded queue.
use native.Mathlib.Nat.{mod-eq_of_lt, mod-lt}
use mathlib.Core.Path.{ap₂}
use posixipc.Prelude.{
  ℕ, suc, ◌+◌, ◌-◌, ◌%◌, ◌≤◌, ◌<◌, ◌≡◌, ◌≢◌, refl, sym, ap, ◌∙◌, arith, inl, inr, none, some, true,
  List, [], ◌∷◌, lt-cases, eq-cases, store,
}
use posixipc.Codes.{success, eagain}
use posixipc.Queue.{View, Memory, empty, ready, reserved_get, run_get, get}
use posixipc.Queue.Ring.{
  slot_at, slot_at-cases, slot_at-ne, slot_at-next, window, window-next, item_at, contents, IsView,
  IsRing,
}
use posixipc.Queue.Fifo

-- the ring after a `get` that finds an item
module _ (v : View) (m : Memory) where
  abbrev pub get_done : Memory
  get_done = record m {
    ctrl = record (m.ctrl) { head = (m.ctrl.head + 1) % v.depth; count = m.ctrl.count - 1 };
    state = store (store m.state m.ctrl.head reserved_get) m.ctrl.head empty;
  }

module _ {v : View} {m : Memory} (w : IsView v) (r : IsRing v m) where
  pub head_slot : slot_at v.depth m.ctrl.head 0 ≡ m.ctrl.head
  head_slot = ap (λ (t : ℕ). t % v.depth) (omega arith) ∙ mod-eq_of_lt r.head_in

  pub get_runs :
      0 < m.ctrl.count
      → get (some v) true m ≡ (success, some (item_at v m m.ctrl.head), get_done v m)
  unfolding get run_get
  get_runs some_held = ground (
    arith,
    w.ctrl,
    w.depth_word,
    r.head_in,
    r.count_in,
    head_slot,
    ap m.state head_slot,
    r.held 0,
  )

  pub get_done-IsRing : 0 < m.ctrl.count → IsRing v (get_done v m)
  get_done-IsRing some_held = record {
    head_in = mod-lt (m.ctrl.head + 1) w.depth_pos;
    count_in = omega (arith, r.count_in);
    tail_at =
        r.tail_at
        ∙ ap (slot_at v.depth m.ctrl.head) (omega arith)
        ∙ sym (slot_at-next v.depth m.ctrl.head (m.ctrl.count - 1));
    held = held;
    free = free;
  }
    where
      next :
          (k : ℕ)
          → slot_at v.depth ((m.ctrl.head + 1) % v.depth) k ≡ slot_at v.depth m.ctrl.head (k + 1)
      next k = slot_at-next v.depth m.ctrl.head k

      other : (k : ℕ) → k + 1 < v.depth → m.ctrl.head ≢ slot_at v.depth m.ctrl.head (k + 1)
      other k h e =
          slot_at-ne v.depth m.ctrl.head 0 (k + 1) r.head_in (omega arith) h (omega arith)
            (head_slot ∙ e)

      held :
          (k : ℕ)
          → k < m.ctrl.count - 1
          → store
              (store m.state m.ctrl.head reserved_get)
              m.ctrl.head
              empty
              (slot_at v.depth ((m.ctrl.head + 1) % v.depth) k)
            ≡ ready
      held k h = rw (next k) (ground (arith, r.count_in, other k, r.held (k + 1)))

      free :
          (k : ℕ)
          → m.ctrl.count - 1 ≤ k
          → k < v.depth
          → store
              (store m.state m.ctrl.head reserved_get)
              m.ctrl.head
              empty
              (slot_at v.depth ((m.ctrl.head + 1) % v.depth) k)
            ≡ empty
      free k h h' = rw (next k) (elim (lt-cases (k + 1) v.depth) [
        | inl p ↦ ground (arith, other k, r.free (k + 1))
        | inr p ↦ ground (arith, slot_at-cases v.depth m.ctrl.head (k + 1) r.head_in (omega arith))
      ])

  pub get_done-contents :
      0 < m.ctrl.count → contents v m ≡ item_at v m m.ctrl.head ∷ contents v (get_done v m)
  get_done-contents some_held =
      ap (window v.depth (item_at v m) m.ctrl.head 0) {y = suc (m.ctrl.count - 1)} (omega arith)
      ∙ ap₂ (λ (x : List ℕ) (q : List (List ℕ)). x ∷ q) (ap (item_at v m) head_slot) rest
    where
      rest :
          window v.depth (item_at v m) m.ctrl.head (0 + 1) (m.ctrl.count - 1)
          ≡ contents v (get_done v m)
      rest = sym (window-next v.depth (item_at v m) m.ctrl.head 0 (m.ctrl.count - 1))

  contents-empty : m.ctrl.count ≡ 0 → contents v m ≡ []
  contents-empty e = ap (window v.depth (item_at v m) m.ctrl.head 0) e

  get_empty : m.ctrl.count ≡ 0 → get (some v) true m ≡ (eagain, none, m)
  unfolding get
  get_empty e = ground (arith, w.ctrl)

  -- `posixipc_queue_get` returns what the bounded queue returns, copies its oldest item out, leaves
  -- the rest in the ring, and keeps the invariant.
  pub get_refines :
      let (rc, out, m') = get (some v) true m in
      ((rc, out, contents v m') ≡ Fifo.pop (contents v m)) × IsRing v m'
  unfolding Fifo.pop
  get_refines = elim (eq-cases m.ctrl.count 0) [
    | inl e ↦ rw (get_empty e, contents-empty e) (refl, r)
    | inr ne ↦
        rw (get_runs (omega arith), get_done-contents (omega arith))
          (refl, get_done-IsRing (omega arith))
  ]
