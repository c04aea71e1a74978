-- ===== src/Layout/Place.antt =====
-- The slots of a layout that posixipc_layout_build accepts: aligned, in order, disjoint and inside
-- the segment.
use posixipc.Prelude.{
  ℕ, suc, ◌+◌, ◌%◌, ◌≤◌, ◌<◌, ◌≡◌, ◌≢◌, refl, sym, ap, ◌∙◌, arith, inl, inr, List, [], ◌∷◌, length,
  if◌then◌else◌, ◌!=◌,
}
use posixipc.Codes.{success}
use posixipc.Word.{u32_max, u16_mod}
use posixipc.Align.{layout_align_up}
use posixipc.Align.Laws.{layout_align_up-cases}
use posixipc.Queue.Size.{cacheline_pos}
use posixipc.Config.{Config, IsConfig}
use posixipc.Layout.Digest.{Slot}
use posixipc.Layout.{kind_align, kind_size, place}

-- A slot that was placed from `cursor` on.
pub record IsPlaced (cursor : ℕ) (s : Slot) : Type 0 where
  pub after : cursor ≤ s.offset
  pub aligned : s.offset % s.align ≡ 0
  pub align_pos : 0 < s.align
  pub align_word : s.align < u16_mod
  pub size_pos : 0 < s.size
  pub ends : s.offset + s.size ≤ u32_max
  pub near : s.offset < cursor + s.align

-- The slots follow one another from `cursor` to `end`.
abbrev pub Placed : ℕ → List Slot → ℕ → Type 0
Placed cursor [] end = cursor ≡ end
Placed cursor (s ∷ ss) end = IsPlaced cursor s × Placed (s.offset + s.size) ss end

pub Placed-le : (slots : List Slot) (cursor end : ℕ) → Placed cursor slots end → cursor ≤ end
Placed-le [] cursor end p = omega arith
Placed-le (s ∷ ss) cursor end (p, ps) =
    omega (arith, p.after, Placed-le ss (s.offset + s.size) end ps)

-- The caller's slots: the `align` is the field's 16 bits.
abbrev pub AreWords : List Slot → Type 0
AreWords [] = Unit {0}
AreWords (s ∷ ss) = (s.align < u16_mod) × AreWords ss

module _ {c : Config} (h : IsConfig c) where
  kind_align-word : (kind : ℕ) → (0 < kind_align c kind) × (kind_align c kind < u16_mod)
  unfolding kind_align
  kind_align-word kind = ground (
    arith,
    h.cacheline.small,
    cacheline_pos h.cacheline,
    h.mutex,
    h.rwlock,
    h.cond,
    h.barrier,
    h.spinlock,
    h.sem,
  )

  -- the alignment and the size that the loop takes
  abbrev align_of : Slot → ℕ
  align_of s = if s.align != 0 then s.align else kind_align c s.kind

  abbrev size_of : Slot → ℕ
  size_of s = if s.size != 0 then s.size else kind_size c s.kind 0

  align_of-word : (s : Slot) → s.align < u16_mod → (0 < align_of s) × (align_of s < u16_mod)
  align_of-word s w = ground (arith, kind_align-word s.kind)

  abbrev off_of : ℕ → Slot → ℕ
  off_of cursor s = layout_align_up cursor (align_of s)

  abbrev placed_slot : ℕ → Slot → Slot
  placed_slot cursor s = record s {
    align = align_of s % u16_mod;
    size = size_of s;
    offset = off_of cursor s;
  }

  -- One round of the loop that goes on.
  place_step :
      (n cursor : ℕ) (s : Slot) (ss : List Slot)
      → 0 < cursor
      → (place c (suc n) cursor (s ∷ ss)).0 ≡ success
      → (off_of cursor s ≢ 0)
        × (size_of s ≢ 0)
        × (off_of cursor s + size_of s ≤ u32_max)
        × (place c (suc n) cursor (s ∷ ss) ≡ (
            let (rc, rest, end) = place c n (off_of cursor s + size_of s) ss in
            (rc, placed_slot cursor s ∷ rest, end)))
  unfolding place
  place_step n cursor s ss p e = ground arith

  placed_slot-IsPlaced :
      (cursor : ℕ) (s : Slot)
      → cursor ≤ u32_max
      → s.align < u16_mod
      → off_of cursor s ≢ 0
      → size_of s ≢ 0
      → off_of cursor s + size_of s ≤ u32_max
      → IsPlaced cursor (placed_slot cursor s)
  placed_slot-IsPlaced cursor s q w ne sz fits =
      elim (layout_align_up-cases cursor (align_of s) q (align_of-word s w).0
        (omega (arith, align_of-word s w))) [
          | inl (up, _) ↦ rw same (record {
            after = up.above;
            aligned = up.multiple;
            align_pos = (align_of-word s w).0;
            align_word = (align_of-word s w).1;
            size_pos = omega arith;
            ends = fits;
            near = up.near;
          })
          | inr zero_off ↦ absurd (ne zero_off)
        ]
    where
      same : align_of s % u16_mod ≡ align_of s
      same = omega (arith, align_of-word s w)

  place_nil : (cursor : ℕ) → place c 0 cursor [] ≡ (success, [], cursor)
  unfolding place
  place_nil cursor = refl

  -- Where the loop succeeds, the slots are placed one after another.
  pub place-Placed :
      (slots : List Slot) (cursor : ℕ)
      → 0 < cursor
      → cursor ≤ u32_max
      → AreWords slots
      → (place c (length slots) cursor slots).0 ≡ success
      → let (rc, out, end) = place c (length slots) cursor slots in
        Placed cursor out end × (length out ≡ length slots) × (end ≤ u32_max) × (0 < end)
  place-Placed [] cursor p q w e = rw (place_nil cursor) (refl, refl, q, p)
  place-Placed (s ∷ ss) cursor p q w e =
      let (ne, sz, fits, step) = place_step (length ss) cursor s ss p e in
      let (rest, len, small, pos) =
        place-Placed ss (off_of cursor s + size_of s) (omega arith) fits w.1
          (ap (λ (r : ℕ × List Slot × ℕ). r.0) (sym step) ∙ e) in
      rw step ((placed_slot-IsPlaced cursor s q w.0 ne sz fits, rest), ap suc len, small, pos)
