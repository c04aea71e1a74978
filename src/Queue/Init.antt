-- ===== src/Queue/Init.antt =====
-- posixipc_queue_init_ctrl of src/core/posixipc_queue.c makes an empty ring.
use native.Mathlib.Nat.{mod-eq_of_lt}
use posixipc.Prelude.{
  ℕ, zero, suc, ◌+◌, ◌≤◌, ◌<◌, ◌≡◌, refl, sym, ◌∙◌, arith, inl, inr, some, [], eq-cases, store,
}
use posixipc.Codes.{success}
use posixipc.Queue.{View, Memory, empty, clear_states, init_ctrl}
use posixipc.Queue.Ring.{slot_at, slot_at-lt, contents, IsView, IsRing}

clear_states_done : (n i j : ℕ) (states : ℕ → ℕ) → j < i → clear_states n i states j ≡ states j
unfolding clear_states
clear_states_done zero i j states h = refl
clear_states_done (suc n) i j states h =
    clear_states_done n (i + 1) j (store states i empty) (omega arith) ∙ ground arith

clear_states_lem :
    (n i j : ℕ) (states : ℕ → ℕ) → i ≤ j → j < i + n → clear_states n i states j ≡ empty
unfolding clear_states
clear_states_lem zero i j states p q = absurd (omega arith)
clear_states_lem (suc n) i j states p q = elim (eq-cases i j) [
  | inl e ↦ clear_states_done n (i + 1) j (store states i empty) (omega arith) ∙ ground arith
  | inr ne ↦ clear_states_lem n (i + 1) j (store states i empty) (omega arith) (omega arith)
]

module _ (v : View) (m : Memory) (w : IsView v) where
  -- `posixipc_queue_init_ctrl` leaves an empty ring, whatever the memory held.
  pub init_ctrl_lem :
      let (rc, m') = init_ctrl (some v) m in (rc ≡ success) × IsRing v m' × (contents v m' ≡ [])
  unfolding init_ctrl
  init_ctrl_lem = rw runs (refl, ring, refl)
    where
      fresh : Memory
      fresh = record m {
        ctrl = record {
          head = 0;
          tail = 0;
          count = 0;
          flags = 0;
          depth = v.depth;
          item_size = v.item_size;
        };
        state = clear_states v.depth 0 m.state;
      }

      runs : init_ctrl (some v) m ≡ (success, fresh)
      runs = ground (arith, w.ctrl, w.state)

      ring : IsRing v fresh
      ring = record {
        head_in = w.depth_pos;
        count_in = omega arith;
        tail_at = sym (mod-eq_of_lt w.depth_pos);
        held = λ k p. elim p [ ];
        free = λ k p q.
            clear_states_lem v.depth 0 (slot_at v.depth 0 k) m.state (omega arith)
              (omega (arith, slot_at-lt v.depth 0 k w.depth_pos));
      }
