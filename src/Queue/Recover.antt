-- ===== src/Queue/Recover.antt =====
-- posixipc_queue_recover of src/core/posixipc_queue.c: what its two loops compute, and what the
-- function leaves in any memory.
pub mod Contiguous
pub mod Wrapped
use native.Mathlib.Nat.{mod-lt, mod-eq_of_lt, zero-add}
use posixipc.Prelude.{
  ℕ, zero, suc, ◌+◌, ◌-◌, ◌%◌, ◌≤◌, ◌<◌, ◌≡◌, ◌≢◌, refl, sym, ap, ◌∙◌, arith, ◌⊎◌, inl, inr, some,
  eq-cases, lt-cases, store, ◌==◌, if◌then◌else◌,
}
use posixipc.Codes.{success}
use posixipc.Word.{u32_max, add32}
use posixipc.Queue.{
  View, Memory, empty, ready, reserved_put, reserved_get, settle, counts, settle_from, first_ready,
  recover,
}
use posixipc.Queue.Ring.{slot_at, IsView}

settle_from_done : (n i j : ℕ) (s : ℕ → ℕ) (r : ℕ) → j < i → (settle_from n i s r).0 j ≡ s j
unfolding settle_from
settle_from_done zero i j s r h = refl
settle_from_done (suc n) i j s r h =
    settle_from_done n (i + 1) j (store s i (settle (s i))) (add32 r (counts (s i))) (omega arith)
    ∙ ground arith

-- The first loop settles each slot once.
pub settle_from_states :
    (n i j : ℕ) (s : ℕ → ℕ) (r : ℕ) → i ≤ j → j < i + n → (settle_from n i s r).0 j ≡ settle (s j)
unfolding settle_from
settle_from_states zero i j s r p q = absurd (omega arith)
settle_from_states (suc n) i j s r p q = elim (eq-cases i j) [
  | inl e ↦
      settle_from_done n (i + 1) j (store s i (settle (s i))) (add32 r (counts (s i))) (omega arith)
      ∙ ground (arith, ap (λ (t : ℕ). settle (s t)) e)
  | inr ne ↦
      settle_from_states n (i + 1) j (store s i (settle (s i))) (add32 r (counts (s i)))
        (omega arith) (omega arith)
      ∙ ap settle {x = store s i (settle (s i)) j} {y = s j} (ground arith)
]

-- the number of slots from `i` to `i + n` that hold an item
pub held_from : ℕ → ℕ → (ℕ → ℕ) → ℕ
held_from zero i s = 0
held_from (suc n) i s = counts (s i) + held_from n (i + 1) s

held_from-ext :
    (n i : ℕ) (s t : ℕ → ℕ)
    → ((j : ℕ) → i ≤ j → j < i + n → s j ≡ t j)
    → held_from n i s ≡ held_from n i t
unfolding held_from
held_from-ext zero i s t e = refl
held_from-ext (suc n) i s t e = rw (
  e i (omega arith) (omega arith),
  held_from-ext n (i + 1) s t (λ j p q. e j (omega arith) (omega arith)),
)

counts-le : (st : ℕ) → counts st ≤ 1
unfolding counts
counts-le st = ground arith

pub held_from-le : (n i : ℕ) (s : ℕ → ℕ) → held_from n i s ≤ n
unfolding held_from
held_from-le zero i s = omega arith
held_from-le (suc n) i s = omega (arith, held_from-le n (i + 1) s, counts-le (s i))

-- The counter of the first loop does not wrap.
pub settle_from_count :
    (n i : ℕ) (s : ℕ → ℕ) (r : ℕ) → r + n ≤ u32_max → (settle_from n i s r).1 ≡ r + held_from n i s
unfolding settle_from held_from
settle_from_count zero i s r h = omega arith
settle_from_count (suc n) i s r h =
    settle_from_count n (i + 1) (store s i (settle (s i))) (add32 r (counts (s i)))
      (omega (arith, counts-le (s i)))
    ∙ omega (
      arith,
      counts-le (s i),
      held_from-ext n (i + 1) (store s i (settle (s i))) s (λ j p q. ground arith),
    )

-- `settle` leaves EMPTY or READY, and READY exactly where the loop counts the slot.
pub settle-cases :
    (st : ℕ) → ((settle st ≡ ready) × (counts st ≡ 1)) ⊎ ((settle st ≡ empty) × (counts st ≡ 0))
unfolding settle counts
settle-cases st = ground arith

-- The second loop's result `k` over the slots from `i` on: the first READY one, below `b`.
record IsFirst (t : ℕ → ℕ) (i b k : ℕ) : Type 0 where
  below : k < b
  is_ready : t k ≡ ready
  before : (j : ℕ) → i ≤ j → j < k → t j ≡ empty

-- Over settled states that hold an item the second loop finds the first of them.
first_ready-IsFirst :
    (n i h : ℕ) (s t : ℕ → ℕ)
    → ((j : ℕ) → i ≤ j → j < i + n → t j ≡ settle (s j))
    → 0 < held_from n i s
    → IsFirst t i (i + n) (first_ready n i t h)
unfolding first_ready held_from
first_ready-IsFirst zero i h s t e p = absurd (omega arith)
first_ready-IsFirst (suc n) i h s t e p = elim (settle-cases (s i)) [
  | inl (is_ready, _) ↦ rw (hit is_ready) (record {
    below = omega arith;
    is_ready = e i (omega arith) (omega arith) ∙ is_ready;
    before = λ j q q'. absurd (omega arith);
  })
  | inr (is_empty, none_held) ↦ rw (miss is_empty) (
      later is_empty (
        first_ready-IsFirst n (i + 1) h s t (λ j q q'. e j (omega arith) (omega arith))
          (omega arith)))
]
  where
    hit : settle (s i) ≡ ready → first_ready (suc n) i t h ≡ i
    hit r = ground (arith, e i (omega arith) (omega arith))

    miss : settle (s i) ≡ empty → first_ready (suc n) i t h ≡ first_ready n (i + 1) t h
    miss r = ground (arith, e i (omega arith) (omega arith))

    later :
        settle (s i) ≡ empty
        → IsFirst t (i + 1) (i + 1 + n) (first_ready n (i + 1) t h)
        → IsFirst t i (i + suc n) (first_ready n (i + 1) t h)
    later r f = record {
      below = omega arith;
      is_ready = f.is_ready;
      before = λ j q q'. elim (eq-cases i j) [
        | inl same ↦ ap t (sym same) ∙ e i (omega arith) (omega arith) ∙ r
        | inr ne ↦ f.before j (omega arith) q'
      ];
    }

-- What recovery means to do with the state word of a slot: an item that was stored whole, or that a
-- reader had not yet taken, is READY, and all else is EMPTY.
pub record Settled (old new : ℕ) : Type 0 where
  pub keeps_ready : old ≡ ready → new ≡ ready
  pub keeps_claimed : old ≡ reserved_get → new ≡ ready
  pub drops_half_put : old ≡ reserved_put → new ≡ empty
  pub drops_others : old ≢ ready → old ≢ reserved_get → new ≡ empty

settle-Settled : (st : ℕ) → Settled st (settle st)
unfolding settle
settle-Settled st = record {
  keeps_ready = λ e. ground arith;
  keeps_claimed = λ e. ground arith;
  drops_half_put = λ e. ground arith;
  drops_others = λ n n'. ground arith;
}

-- the number of READY slots from `i` to `i + n`
pub ready_from : ℕ → ℕ → (ℕ → ℕ) → ℕ
ready_from zero i t = 0
ready_from (suc n) i t = (if t i == ready then 1 else 0) + ready_from n (i + 1) t

-- The first loop counts the slots that it leaves READY.
ready_from-held :
    (n i : ℕ) (s t : ℕ → ℕ)
    → ((j : ℕ) → i ≤ j → j < i + n → t j ≡ settle (s j))
    → ready_from n i t ≡ held_from n i s
unfolding ready_from held_from
ready_from-held zero i s t e = refl
ready_from-held (suc n) i s t e =
    let later = ready_from-held n (i + 1) s t λ j p q. e j (omega arith) (omega arith) in
    let here = e i (omega arith) (omega arith) in ground (arith, settle-cases (s i))

-- What `posixipc_queue_recover` leaves, whatever the memory held before.
pub record Recovered (v : View) (m m' : Memory) : Type 0 where
  pub states : (j : ℕ) → j < v.depth → m'.state j ≡ settle (m.state j)
  pub count : m'.ctrl.count ≡ held_from v.depth 0 m.state
  pub slots : (j : ℕ) → j < v.depth → Settled (m.state j) (m'.state j)
  pub counted : m'.ctrl.count ≡ ready_from v.depth 0 m'.state
  pub head_in : m'.ctrl.head < v.depth
  pub head_ready : m'.ctrl.count ≢ 0 → m'.state m'.ctrl.head ≡ ready
  pub head_first : (j : ℕ) → j < m'.ctrl.head → m'.state j ≡ empty
  pub count_in : m'.ctrl.count ≤ v.depth
  pub tail_at : m'.ctrl.tail ≡ slot_at v.depth m'.ctrl.head m'.ctrl.count
  pub payload : m'.payload ≡ m.payload

module _ (v : View) (m : Memory) where
  -- the state words after the first loop
  abbrev pub settled : ℕ → ℕ
  settled = (settle_from v.depth 0 m.state 0).0

  -- the head that the second loop finds
  abbrev pub found_head : ℕ
  found_head = first_ready v.depth 0 settled m.ctrl.head

module _ {v : View} (m : Memory) (w : IsView v) where
  abbrev n_held : ℕ
  n_held = held_from v.depth 0 m.state

  abbrev recovered_none : Memory
  recovered_none = record m {
    state = settled v m;
    ctrl = record (m.ctrl) { count = n_held; head = 0; tail = 0 };
  }

  abbrev recovered_some : Memory
  recovered_some = record m {
    state = settled v m;
    ctrl = record (m.ctrl) {
      count = n_held;
      head = found_head v m;
      tail = add32 (found_head v m) n_held % v.depth;
    };
  }

  counted : (settle_from v.depth 0 m.state 0).1 ≡ n_held
  counted =
      settle_from_count v.depth 0 m.state 0 (omega (arith, w.depth_word))
      ∙ zero-add (held_from v.depth 0 m.state)

  recover_none : n_held ≡ 0 → recover (some v) m ≡ (success, recovered_none)
  unfolding recover
  recover_none e = ground (arith, counted, w.ctrl, w.state)

  recover-some : n_held ≢ 0 → recover (some v) m ≡ (success, recovered_some)
  unfolding recover
  recover-some e = ground (arith, counted, w.ctrl, w.state)

  states_settled : (j : ℕ) → j < v.depth → settled v m j ≡ settle (m.state j)
  states_settled j h = settle_from_states v.depth 0 j m.state 0 (omega arith) (omega arith)

  slots_settled : (j : ℕ) → j < v.depth → Settled (m.state j) (settled v m j)
  slots_settled j h = rw (states_settled j h) (settle-Settled (m.state j))

  count_ready : n_held ≡ ready_from v.depth 0 (settled v m)
  count_ready =
      sym (ready_from-held v.depth 0 m.state (settled v m) λ j p q. states_settled j (omega arith))

  found_head-IsFirst : n_held ≢ 0 → IsFirst (settled v m) 0 (0 + v.depth) (found_head v m)
  found_head-IsFirst ne =
      first_ready-IsFirst v.depth 0 m.ctrl.head m.state (settled v m)
        (λ j p q. states_settled j (omega arith)) (omega arith)

  found_head-lt : n_held ≢ 0 → found_head v m < v.depth
  found_head-lt ne = omega (arith, found_head-IsFirst ne)

  -- `posixipc_queue_recover` succeeds on any memory at all. It leaves each slot of a stored item, also
  -- of one that a reader had claimed, READY and all others EMPTY, that of a put that was not over
  -- included; the count is the number of READY slots, the head is below the depth, READY if there is
  -- an item, with no READY slot before it, the tail is as many slots behind it as there are items, and
  -- the items themselves are as they were.
  pub recover_lem : let (rc, m') = recover (some v) m in (rc ≡ success) × Recovered v m m'
  recover_lem = elim (eq-cases n_held 0) [
    | inl e ↦ rw (recover_none e) (
      refl,
      record {
        states = states_settled;
        count = refl;
        slots = slots_settled;
        counted = count_ready;
        head_in = w.depth_pos;
        head_ready = λ ne. absurd (ne e);
        head_first = λ j p. elim p [ ];
        count_in = held_from-le v.depth 0 m.state;
        tail_at = sym (ap (slot_at v.depth 0) e ∙ mod-eq_of_lt w.depth_pos);
        payload = refl;
      },
    )
    | inr ne ↦ rw (recover-some ne) (
      refl,
      record {
        states = states_settled;
        count = refl;
        slots = slots_settled;
        counted = count_ready;
        head_in = found_head-lt ne;
        head_ready = λ _. (found_head-IsFirst ne).is_ready;
        head_first = λ j p. (found_head-IsFirst ne).before j (omega arith) p;
        count_in = held_from-le v.depth 0 m.state;
        tail_at =
            ap (λ (t : ℕ). t % v.depth)
              (omega (arith, found_head-lt ne, held_from-le v.depth 0 m.state, w.depth_word));
        payload = refl;
      },
    )
  ]
