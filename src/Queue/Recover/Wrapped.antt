-- ===== src/Queue/Recover/Wrapped.antt =====
-- Recovery of a ring that goes round the end of its slots and is not full.
use native.Mathlib.Nat.{mod-eq_of_lt}
use posixipc.Prelude.{
  ℕ, ◌+◌, ◌-◌, ◌%◌, ◌<◌, ◌≡◌, refl, ap, ◌∙◌, arith, ◌⊎◌, inl, inr, some, eq-cases, lt-cases,
}
use posixipc.Codes.{success}
use posixipc.Queue.{View, Memory, empty, ready, settle, recover}
use posixipc.Queue.Ring.{slot_at, slot_at-cases, IsView, IsRing}
use posixipc.Queue.Recover.{Recovered, recover_lem}

module _ {v : View} {m : Memory} (w : IsView v) (r : IsRing v m)
    (round : v.depth < m.ctrl.head + m.ctrl.count) (room : m.ctrl.count < v.depth) where
  settle_keeps : (st : ℕ) → (st ≡ ready) ⊎ (st ≡ empty) → settle st ≡ st
  unfolding settle
  settle_keeps st e = ground arith

  -- the first slot that holds no item, in slot order
  abbrev gap : ℕ
  gap = m.ctrl.head + m.ctrl.count - v.depth

  slot_0-ready : m.state 0 ≡ ready
  slot_0-ready =
      ap m.state (
        omega (
          arith,
          r.head_in,
          slot_at-cases v.depth m.ctrl.head (v.depth - m.ctrl.head) r.head_in (omega arith),
        ))
      ∙ r.held (v.depth - m.ctrl.head) (omega (arith, r.head_in))

  gap-empty : m.state gap ≡ empty
  gap-empty =
      ap m.state
        (omega (arith, slot_at-cases v.depth m.ctrl.head m.ctrl.count r.head_in (omega arith)))
      ∙ r.free m.ctrl.count (omega arith) room

  last-ready : m.state (v.depth - 1) ≡ ready
  last-ready =
      ap m.state (
        omega (
          arith,
          r.head_in,
          slot_at-cases v.depth m.ctrl.head (v.depth - 1 - m.ctrl.head) r.head_in (omega arith),
        ))
      ∙ r.held (v.depth - 1 - m.ctrl.head) (omega (arith, r.head_in))

  module _ {m' : Memory} (done : Recovered v m m') where
    kept :
        (j : ℕ)
        → j < v.depth
        → (st : ℕ) → m.state j ≡ st
        → (st ≡ ready) ⊎ (st ≡ empty)
        → m'.state j ≡ st
    kept j h st e either = done.states j h ∙ ap settle e ∙ settle_keeps st either

    kept_0 : m'.state 0 ≡ ready
    kept_0 = kept 0 w.depth_pos ready slot_0-ready (inl refl)

    head_zero : m'.ctrl.head ≡ 0
    head_zero = elim (eq-cases m'.ctrl.head 0) [
      | inl e ↦ e
      | inr ne ↦ absurd (omega (arith, kept_0, done.head_first 0 (omega arith)))
    ]

    at_slot : (j : ℕ) → j < v.depth → slot_at v.depth m'.ctrl.head j ≡ j
    at_slot j h =
        ap (λ (t : ℕ). (t + j) % v.depth) head_zero
        ∙ ap (λ (t : ℕ). t % v.depth) (omega arith)
        ∙ mod-eq_of_lt h

    no-IsRing : ¬ IsRing v m'
    no-IsRing ring = elim (lt-cases (v.depth - 1) m'.ctrl.count) [
      | inl all ↦ omega (
        arith,
        kept gap (omega (arith, r.head_in)) empty gap-empty (inr refl),
        ap m'.state (at_slot gap (omega (arith, r.head_in))),
        ring.held gap (omega (arith, r.head_in)),
      )
      | inr few ↦ omega (
        arith,
        kept (v.depth - 1) (omega (arith, w.depth_pos)) ready last-ready (inl refl),
        ap m'.state (at_slot (v.depth - 1) (omega (arith, w.depth_pos))),
        ring.free (v.depth - 1) few (omega (arith, w.depth_pos)),
      )
    ]

  -- Recovery moves the head of a ring that goes round the end of its slots and is not full to slot 0.
  -- The items that are counted from there run over an EMPTY slot: what is left is no ring.
  pub recover_wrapped :
      let (rc, m') = recover (some v) m in (rc ≡ success) × (m'.ctrl.head ≡ 0) × ¬ IsRing v m'
  recover_wrapped = let (ok, done) = recover_lem m w in (ok, head_zero done, no-IsRing done)
