-- ===== src/Layout/Rebuild.antt =====
-- The process that attaches builds the layout again, from slots that may be placed already.
use posixipc.Prelude.{
  ℕ, suc, ◌+◌, ◌≤◌, ◌<◌, ◌≡◌, ◌≢◌, refl, sym, ap, ◌∙◌, arith, some, true, List, [], ◌∷◌, length,
}
use native.Mathlib.Nat.{mod-eq_of_lt}
use posixipc.Codes.{success}
use posixipc.Word.{u32_max, u16_mod}
use posixipc.Align.{layout_align_up}
use posixipc.Align.Laws.{RoundsUp, layout_align_up_lem}
use posixipc.Config.{Config, IsConfig}
use posixipc.Layout.Digest.{Slot}
use posixipc.Layout.{Expect, place, build}
use posixipc.Layout.Place.{IsPlaced, Placed, AreWords, Placed-le}
use posixipc.Layout.Build.{dir_end, build_runs, build_inverted, build_places}

offset_again :
    (cursor : ℕ) (s : Slot)
    → cursor ≤ u32_max
    → IsPlaced cursor s
    → layout_align_up cursor s.align ≡ s.offset
offset_again cursor s q p =
    layout_align_up_lem cursor s.align s.offset q p.align_pos (omega (arith, p.align_word)) up
    ∙ ground (arith, p.ends)
  where
    up : RoundsUp cursor s.align s.offset
    up = record { multiple = p.aligned; above = p.after; near = p.near }

module _ (c : Config) where
  place_again_step :
      (n cursor : ℕ) (s : Slot) (ss : List Slot)
      → cursor ≤ u32_max
      → IsPlaced cursor s
      → place c (suc n) cursor (s ∷ ss)
        ≡ (let (rc, rest, end) = place c n (s.offset + s.size) ss in (rc, s ∷ rest, end))
  unfolding place
  place_again_step n cursor s ss q p =
      ground (arith, offset_again cursor s q p, mod-eq_of_lt p.align_word)

  nil_again : (cursor : ℕ) → place c 0 cursor [] ≡ (success, [], cursor)
  unfolding place
  nil_again cursor = refl

  pub place_again :
      (slots : List Slot) (cursor end : ℕ)
      → cursor ≤ u32_max
      → Placed cursor slots end
      → place c (length slots) cursor slots ≡ (success, slots, end)
  place_again [] cursor end q p = rw (nil_again cursor, p)
  place_again (s ∷ ss) cursor end q (p, ps) = rw (
    place_again_step (length ss) cursor s ss q p,
    place_again ss (s.offset + s.size) end p.ends ps,
  )

-- Building the placed slots again gives the same slots and the same record, so that a process that
-- attaches with the layout as it was built expects the header that was written.
pub build_again :
    {c : Config} (h : IsConfig c) (slots : List Slot) {out : List Slot} {e : Expect}
    → length slots < u16_mod
    → AreWords slots
    → build c true (some slots) (length slots) ≡ (success, some out, some e)
    → build c true (some out) (length slots) ≡ (success, some out, some e)
build_again {c} h slots {out} {e} small w eq =
    let (placed, len, fits, _, _, _) = build_places h slots small w eq in
    let (_, _, stored) = build_inverted c slots small eq in
    ground (arith, build_runs c out (length slots) small, again placed len, stored, nonzero placed)
  where
    again :
        Placed (dir_end (length slots)) out e.total_size
        → length out ≡ length slots
        → place c (length slots) (dir_end (length slots)) out ≡ (success, out, e.total_size)
    again placed len =
        ap (λ (n : ℕ). place c n (dir_end (length slots)) out) (sym len)
        ∙ place_again c out (dir_end (length slots)) e.total_size (omega arith) placed

    nonzero : Placed (dir_end (length slots)) out e.total_size → e.total_size ≢ 0
    nonzero placed = omega (arith, Placed-le out (dir_end (length slots)) e.total_size placed)
