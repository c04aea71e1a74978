-- ===== src/Futexq/Laws.antt =====
-- The block of src/core/posixipc_futexq.c: two words, and the ring behind them.
use posixipc.Prelude.{
  ℕ, ◌+◌, ◌-◌, ◌*◌, ◌≤◌, ◌<◌, ◌≡◌, ◌≢◌, refl, arith, false, none, some, ◌==◌, if◌then◌else◌, ◌⊎◌,
  inl, inr, [], leb, lt-cases, eq-cases,
}
use posixipc.Codes.{success, einval}
use posixipc.Word.{u32_max, sub32}
use posixipc.Align.Laws.{RoundsUp, align_up_lem}
use posixipc.Queue.Ring.{IsView, IsRing, contents}
use posixipc.Queue.Size.{IsCacheline, Parts, IsInside, bytes_size_lem, map_view_cases}
use posixipc.Queue.Init.{init_ctrl_lem}
use posixipc.Futexq.{
  FutexqView, FutexqMemory, prefix_size, futexq_bytes_size, futexq_map, futexq_init,
}

-- The view's words lie at the start of the block, and its ring behind them in the block.
pub record IsBlock (base nbytes : ℕ) (v : FutexqView) : Type 0 where
  pub not_full_first : v.not_full ≡ base
  pub not_empty_next : v.not_empty ≡ base + 4
  pub words_end : v.not_empty + 4 ≤ v.view.ctrl
  pub ring_inside :
      (start : ℕ) × (base ≤ start)
      × (start ≤ base + nbytes)
      × IsInside start (base + nbytes - start) v.view
  pub ring : IsView v.view

module _ {c : ℕ} (h : IsCacheline c) (prefix : ℕ) (px : RoundsUp 8 c prefix) where
  prefix_size_lem : prefix_size c ≡ prefix
  unfolding prefix_size
  prefix_size_lem =
      let small = h.small in
      let above = px.above in
      let near = px.near in
      ground (arith, align_up_lem 8 c prefix (omega arith) (omega arith) h.power px)

  module _ (base nbytes depth item_size cb sb stride : ℕ) (hn : nbytes ≤ u32_max) (h0 : 0 < depth)
      (hd : depth ≤ u32_max) (h1 : 0 < item_size) (hi : item_size ≤ u32_max)
      (x : Parts c depth item_size cb sb stride) where
    -- `posixipc_futexq_bytes_size` is the exact size of the block if that is a 32-bit word, and 0
    -- otherwise.
    pub futexq_bytes_size_lem : futexq_bytes_size c depth item_size ≡ (
        if leb (prefix + (cb + sb + depth * stride)) u32_max
        then prefix + (cb + sb + depth * stride)
        else 0)
    unfolding futexq_bytes_size
    futexq_bytes_size_lem =
        let above = px.above in
        let near = px.near in
        let small = h.small in
        ground (arith, prefix_size_lem, bytes_size_lem h depth item_size cb sb stride h0 hd h1 hi x)

    -- `posixipc_futexq_map` either maps a view that lies in the block, or returns EINVAL and no view,
    -- and that only for a NULL block or one that is too small.
    pub futexq_map-cases :
        ((v : FutexqView) × (futexq_map c base nbytes depth item_size ≡ (success, some v))
          × IsBlock base nbytes v)
        ⊎ ((futexq_map c base nbytes depth item_size ≡ (einval, none))
            × ((base ≡ 0) ⊎ (nbytes < prefix + (cb + sb + depth * stride))))
    unfolding futexq_map
    futexq_map-cases = elim (eq-cases base 0) [
      | inl null ↦ inr (ground arith, inl null)
      | inr there ↦ elim (lt-cases nbytes (prefix + (cb + sb + depth * stride))) [
        | inl small ↦ inr (ground (arith, futexq_bytes_size_lem, prefix_size_lem), inr small)
        | inr fits ↦
            let above = px.above in
            elim (map_view_cases h (base + prefix) (nbytes - prefix) depth item_size cb sb stride
              (omega arith) h0 hd h1 hi x) [
                | inl (v, e, inside, view, _, _) ↦ inl (
                  record { not_full = base; not_empty = base + 4; view = v },
                  (let start : sub32 nbytes prefix ≡ nbytes - prefix = omega arith in
                      ground (arith, futexq_bytes_size_lem, prefix_size_lem, start, e)),
                  record {
                    not_full_first = refl;
                    not_empty_next = refl;
                    words_end = let first = inside.ctrl_first in omega arith;
                    ring_inside = (
                      base + prefix,
                      omega arith,
                      omega arith,
                      (let rest : base + nbytes - (base + prefix) ≡ nbytes - prefix = omega arith in
                          rw rest inside),
                    );
                    ring = view;
                  },
                )
                | inr (e, inl null) ↦ absurd (omega arith)
                | inr (e, inr small) ↦ absurd (omega arith)
              ]
      ]
    ]

is_zero_false : (n : ℕ) → n ≢ 0 → (n == 0) ≡ false
is_zero_false n h = ground arith

-- A new block, whatever it held, has both words 0 and an empty ring.
pub futexq_init_lem :
    (v : FutexqView) (m : FutexqMemory)
    → IsView v.view
    → v.not_full ≢ 0
    → v.not_empty ≢ 0
    → let (rc, m') = futexq_init (some v) m in
      (rc ≡ success)
      × (m'.not_full ≡ 0)
      × (m'.not_empty ≡ 0)
      × IsRing v.view m'.ring
      × (contents v.view m'.ring ≡ [])
unfolding futexq_init
futexq_init_lem v m w p q =
    let (rc, ring, nothing) = init_ctrl_lem v.view m.ring w in
    rw (is_zero_false v.not_full p, is_zero_false v.not_empty q) (rc, refl, refl, ring, nothing)
