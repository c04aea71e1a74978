-- ===== src/Queue/Recover/Contiguous.antt =====
-- Recovery where the settled slots that hold an item stand together: the ring comes back whole.
use posixipc.Prelude.{
  ℕ, zero, suc, ◌+◌, ◌-◌, ◌*◌, ◌≤◌, ◌<◌, ◌≡◌, ◌≢◌, refl, sym, ap, ◌∙◌, arith, inl, inr, some,
  eq-cases, lt-cases,
}
use posixipc.Codes.{success}
use native.Mathlib.Nat.{zero-add, suc-add}
use posixipc.Queue.{View, Memory, empty, ready, settle, counts, read_bytes, recover}
use posixipc.Queue.Ring.{
  slot_at, slot_at-cases, slot_at-lt, window, item_at, contents, IsView, IsRing,
}
use posixipc.Queue.Recover.{held_from, settle-cases, Recovered, recover_lem}

-- Of the `d` slots those from `lo` to `lo + n` hold an item once they are settled, and no others.
pub record HoldsBlock (d lo n : ℕ) (states : ℕ → ℕ) : Type 0 where
  pub in_range : lo + n ≤ d
  pub inside : (j : ℕ) → lo ≤ j → j < lo + n → settle (states j) ≡ ready
  pub below : (j : ℕ) → j < lo → settle (states j) ≡ empty
  pub above : (j : ℕ) → lo + n ≤ j → j < d → settle (states j) ≡ empty

counts-ready : (st : ℕ) → settle st ≡ ready → counts st ≡ 1
counts-ready st e = ground (arith, settle-cases st)

counts-empty : (st : ℕ) → settle st ≡ empty → counts st ≡ 0
counts-empty st e = ground (arith, settle-cases st)

held_from-ready :
    (n i : ℕ) (s : ℕ → ℕ)
    → ((j : ℕ) → i ≤ j → j < i + n → settle (s j) ≡ ready)
    → held_from n i s ≡ n
unfolding held_from
held_from-ready zero i s e = refl
held_from-ready (suc n) i s e = omega (
  arith,
  counts-ready (s i) (e i (omega arith) (omega arith)),
  held_from-ready n (i + 1) s (λ j p q. e j (omega arith) (omega arith)),
)

held_from-empty :
    (n i : ℕ) (s : ℕ → ℕ)
    → ((j : ℕ) → i ≤ j → j < i + n → settle (s j) ≡ empty)
    → held_from n i s ≡ 0
unfolding held_from
held_from-empty zero i s e = refl
held_from-empty (suc n) i s e = omega (
  arith,
  counts-empty (s i) (e i (omega arith) (omega arith)),
  held_from-empty n (i + 1) s (λ j p q. e j (omega arith) (omega arith)),
)

held_from-add :
    (a b i : ℕ) (s : ℕ → ℕ) → held_from (a + b) i s ≡ held_from a i s + held_from b (i + a) s
unfolding held_from
held_from-add zero b i s = rw (zero-add, zero-add) (ap (λ (t : ℕ). held_from b t s) (omega arith))
held_from-add (suc a) b i s =
    rw suc-add
      (omega (arith, held_from-add a b (i + 1) s, ap (λ (t : ℕ). held_from b t s) (next i a)))
  where
    next : (i a : ℕ) → i + 1 + a ≡ i + suc a
    next i a = omega arith

held_from-block : (d lo n : ℕ) (s : ℕ → ℕ) → HoldsBlock d lo n s → held_from d 0 s ≡ n
held_from-block d lo n s b =
    ap (λ (t : ℕ). held_from t 0 s) {y = lo + (n + (d - lo - n))} (omega (arith, b.in_range))
    ∙ omega (
      arith,
      held_from-add lo (n + (d - lo - n)) 0 s,
      held_from-add n (d - lo - n) (0 + lo) s,
      held_from-empty lo 0 s (λ j p q. b.below j (omega arith)),
      held_from-ready n (0 + lo) s (λ j p q. b.inside j (omega arith) (omega arith)),
      held_from-empty (d - lo - n) (0 + lo + n) s
          (λ j p q. b.above j (omega arith) (omega (arith, b.in_range))),
    )

module _ {v : View} {m m' : Memory} (lo n : ℕ) (b : HoldsBlock v.depth lo n m.state)
    (done : Recovered v m m') where
  count_eq : m'.ctrl.count ≡ n
  count_eq = done.count ∙ held_from-block v.depth lo n m.state b

  head_eq : n ≢ 0 → m'.ctrl.head ≡ lo
  head_eq ne = elim (lt-cases m'.ctrl.head lo) [
    | inl p ↦ absurd (
        empty-ne-ready
          (sym (b.below m'.ctrl.head p) ∙ sym (done.states m'.ctrl.head done.head_in) ∙ is_ready))
    | inr p ↦ elim (lt-cases lo m'.ctrl.head) [
      | inl q ↦ absurd (
          empty-ne-ready (
            sym (done.head_first lo q)
            ∙ done.states lo (omega (arith, done.head_in))
            ∙ b.inside lo (omega arith) (omega arith)))
      | inr q ↦ omega arith
    ]
  ]
    where
      is_ready : m'.state m'.ctrl.head ≡ ready
      is_ready = done.head_ready (omega (arith, count_eq))

      empty-ne-ready : ◌≡◌ {A = ℕ} 0 3 → ⊥
      empty-ne-ready e = omega arith

  -- the settled state of the `k`-th slot from the head on
  slot_state :
      (k : ℕ)
      → k < v.depth
      → (st : ℕ) → settle (m.state (slot_at v.depth m'.ctrl.head k)) ≡ st
      → m'.state (slot_at v.depth m'.ctrl.head k) ≡ st
  slot_state k h st e =
      done.states (slot_at v.depth m'.ctrl.head k)
        (slot_at-lt v.depth m'.ctrl.head k done.head_in (omega arith))
      ∙ e

  all_empty : n ≡ 0 → (j : ℕ) → j < v.depth → settle (m.state j) ≡ empty
  all_empty z j h = elim (lt-cases j lo) [ inl p ↦ b.below j p | inr p ↦ b.above j (omega arith) h ]

  block_ready : n ≢ 0 → (k : ℕ) → k < n → settle (m.state (slot_at v.depth m'.ctrl.head k)) ≡ ready
  block_ready ne k h =
      b.inside (slot_at v.depth m'.ctrl.head k) (omega (arith, facts)) (omega (arith, facts))
    where
      facts : slot_at v.depth m'.ctrl.head k ≡ lo + k
      facts = omega (
        arith,
        head_eq ne,
        b.in_range,
        slot_at-cases v.depth m'.ctrl.head k done.head_in (omega (arith, b.in_range)),
      )

  rest_empty :
      n ≢ 0
      → (k : ℕ) → n ≤ k
      → k < v.depth
      → settle (m.state (slot_at v.depth m'.ctrl.head k)) ≡ empty
  rest_empty ne k h h' = elim (slot_at-cases v.depth m'.ctrl.head k done.head_in (omega arith)) [
    | inl (p, e) ↦
        b.above (slot_at v.depth m'.ctrl.head k) (omega (arith, head_eq ne)) (omega arith)
    | inr (p, e) ↦ b.below (slot_at v.depth m'.ctrl.head k) (omega (arith, head_eq ne))
  ]

  block-IsRing : IsRing v m'
  block-IsRing = record {
    head_in = done.head_in;
    count_in = done.count_in;
    tail_at = done.tail_at;
    held = λ k h.
        slot_state k (omega (arith, done.count_in)) ready
          (block_ready (omega (arith, count_eq)) k (omega (arith, count_eq)));
    free = λ k h h'. slot_state k h' empty (elim (eq-cases n 0) [
      | inl z ↦
          all_empty z (slot_at v.depth m'.ctrl.head k)
            (slot_at-lt v.depth m'.ctrl.head k done.head_in (omega arith))
      | inr ne ↦ rest_empty ne k (omega (arith, count_eq)) h'
    ]);
  }

  block-contents : contents v m' ≡ window v.depth (item_at v m) lo 0 n
  block-contents = elim (eq-cases n 0) [
    | inl z ↦
        ap (window v.depth (item_at v m') m'.ctrl.head 0) (count_eq ∙ z)
        ∙ sym (ap (window v.depth (item_at v m) lo 0) z)
    | inr ne ↦
        ap (window v.depth (item_at v m') m'.ctrl.head 0) count_eq
        ∙ ap (λ (h : ℕ). window v.depth (item_at v m') h 0 n) (head_eq ne)
        ∙ ap (λ (p : ℕ → ℕ). window v.depth (λ i. read_bytes p (i * v.stride) v.item_size) lo 0 n)
            done.payload
  ]

-- Where the slots that hold an item stand together, recovery makes a ring of exactly their items,
-- in slot order.
pub recover-block :
    {v : View} (m : Memory) (lo n : ℕ)
    → IsView v
    → HoldsBlock v.depth lo n m.state
    → let (rc, m') = recover (some v) m in
      (rc ≡ success) × IsRing v m' × (contents v m' ≡ window v.depth (item_at v m) lo 0 n)
recover-block m lo n w b =
    let (ok, done) = recover_lem m w in (ok, block-IsRing lo n b done, block-contents lo n b done)
