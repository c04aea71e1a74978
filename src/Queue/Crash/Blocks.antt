-- ===== src/Queue/Crash/Blocks.antt =====
-- A ring that does not go round holds a block of slots, and how stores change that block.
use posixipc.Prelude.{ℕ, ◌+◌, ◌-◌, ◌≤◌, ◌<◌, ◌≡◌, ◌≢◌, ap, ◌∙◌, arith, ◌⊎◌, inl, inr, eq-cases}
use posixipc.Queue.{View, Memory, empty, ready, settle}
use posixipc.Queue.Ring.{slot_at, slot_at-cases, IsRing}
use posixipc.Queue.Recover.Contiguous.{HoldsBlock}

settle-ready : (st : ℕ) → st ≡ ready → settle st ≡ ready
unfolding settle
settle-ready st e = ground arith

settle-empty : (st : ℕ) → st ≡ empty → settle st ≡ empty
unfolding settle
settle-empty st e = ground arith

-- The slots of a ring that does not go round.
pub ring-HoldsBlock :
    {v : View} {m : Memory}
    → IsRing v m
    → m.ctrl.head + m.ctrl.count ≤ v.depth
    → HoldsBlock v.depth m.ctrl.head m.ctrl.count m.state
ring-HoldsBlock {v} {m} r flat = record {
  in_range = flat;
  inside = λ j p q. settle-ready (m.state j) (
      ap m.state (at j (omega arith) (j - m.ctrl.head) (omega arith) (inl (omega arith)))
      ∙ r.held (j - m.ctrl.head) (omega arith));
  below = λ j p. settle-empty (m.state j) (
      ap m.state (
        at j (omega (arith, r.head_in)) (j + v.depth - m.ctrl.head) (omega (arith, r.head_in))
          (inr (omega (arith, r.head_in))))
      ∙ r.free (j + v.depth - m.ctrl.head) (omega (arith, r.head_in)) (omega (arith, r.head_in)));
  above = λ j p q. settle-empty (m.state j) (
      ap m.state (at j q (j - m.ctrl.head) (omega arith) (inl (omega arith)))
      ∙ r.free (j - m.ctrl.head) (omega arith) (omega arith));
}
  where
    at :
        (j : ℕ)
        → j < v.depth
        → (k : ℕ) → k ≤ v.depth
        → (m.ctrl.head + k ≡ j) ⊎ (m.ctrl.head + k ≡ j + v.depth)
        → j ≡ slot_at v.depth m.ctrl.head k
    at j h k h' e = omega (arith, slot_at-cases v.depth m.ctrl.head k r.head_in h')

-- Only the settled states matter.
pub HoldsBlock-ext :
    {d lo n : ℕ} {s : ℕ → ℕ} (t : ℕ → ℕ)
    → ((j : ℕ) → j < d → settle (t j) ≡ settle (s j))
    → HoldsBlock d lo n s
    → HoldsBlock d lo n t
HoldsBlock-ext t e b = record {
  in_range = b.in_range;
  inside = λ j p q. e j (omega (arith, b.in_range)) ∙ b.inside j p q;
  below = λ j p. e j (omega (arith, b.in_range)) ∙ b.below j p;
  above = λ j p q. e j q ∙ b.above j p q;
}

-- A slot that is settled READY just above the block extends it.
pub HoldsBlock-grow :
    {d lo n : ℕ} {s : ℕ → ℕ} (t : ℕ → ℕ)
    → lo + n < d
    → settle (t (lo + n)) ≡ ready
    → ((j : ℕ) → j < d → j ≢ lo + n → settle (t j) ≡ settle (s j))
    → HoldsBlock d lo n s
    → HoldsBlock d lo (n + 1) t
HoldsBlock-grow {d} {lo} {n} t room is_ready e b = record {
  in_range = omega arith;
  inside = λ j p q. elim (eq-cases j (lo + n)) [
    | inl same ↦ ap (λ (k : ℕ). settle (t k)) same ∙ is_ready
    | inr ne ↦ e j (omega arith) ne ∙ b.inside j p (omega arith)
  ];
  below = λ j p. e j (omega arith) (omega arith) ∙ b.below j p;
  above = λ j p q. e j q (omega arith) ∙ b.above j (omega arith) q;
}

-- A slot that is settled EMPTY at the start of the block shortens it.
pub HoldsBlock-shrink :
    {d lo n : ℕ} {s : ℕ → ℕ} (t : ℕ → ℕ)
    → 0 < n
    → settle (t lo) ≡ empty
    → ((j : ℕ) → j < d → j ≢ lo → settle (t j) ≡ settle (s j))
    → HoldsBlock d lo n s
    → HoldsBlock d (lo + 1) (n - 1) t
HoldsBlock-shrink {d} {lo} {n} t some_held is_empty e b = record {
  in_range = omega (arith, b.in_range);
  inside = λ j p q.
      e j (omega (arith, b.in_range)) (omega arith) ∙ b.inside j (omega arith) (omega arith);
  below = λ j p. elim (eq-cases j lo) [
    | inl same ↦ ap (λ (k : ℕ). settle (t k)) same ∙ is_empty
    | inr ne ↦ e j (omega (arith, b.in_range)) ne ∙ b.below j (omega arith)
  ];
  above = λ j p q. e j q (omega (arith, b.in_range)) ∙ b.above j (omega arith) q;
}
