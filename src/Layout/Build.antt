-- ===== src/Layout/Build.antt =====
-- posixipc_layout_build of src/core/posixipc_layout.c as a whole.
use posixipc.Prelude.{
  ℕ, ◌+◌, ◌*◌, ◌≤◌, ◌<◌, ◌≡◌, refl, arith, some, none, true, List, length, if◌then◌else◌, ◌!=◌,
  ◌==◌,
}
use posixipc.Codes.{success, eoverflow}
use posixipc.Word.{u32_max, u16_mod, add32, mul32}
use posixipc.Config.{Config, IsConfig}
use posixipc.Layout.Digest.{Slot, abi_tag, layout_digest}
use posixipc.Layout.{
  Expect, header_bytes, sizeof_slot, layout_version, dir_size, place, built, build,
}
use posixipc.Layout.Place.{Placed, AreWords, place-Placed}

-- where the first slot may start
abbrev pub dir_end : ℕ → ℕ
dir_end nslots = header_bytes + sizeof_slot * nslots

module _ (c : Config) where
  dir_size_lem : (n : ℕ) → n < u16_mod → dir_size c n ≡ some (sizeof_slot * n)
  unfolding dir_size
  dir_size_lem n h = ground arith

  -- For an array of slots the function is its loop and two tests.
  pub build_runs :
      (slots : List Slot) (n : ℕ)
      → n < u16_mod
      → build c true (some slots) n ≡ (
          let (rc, out, cursor) = place c n (dir_end n) slots in
          if rc != success
          then (rc, some out, none)
          else if cursor == 0
          then (eoverflow, some out, none)
          else (success, some out, some (built c n (sizeof_slot * n) cursor (some out) out)))
  unfolding build
  build_runs slots n h = ground (arith, start)
    where
      start : add32 header_bytes (mul32 n sizeof_slot) ≡ dir_end n
      start = omega arith

-- What the loop and the stored record are where the function succeeds.
pub build_inverted :
    (c : Config) (slots : List Slot) {out : List Slot} {e : Expect}
    → length slots < u16_mod
    → build c true (some slots) (length slots) ≡ (success, some out, some e)
    → let (rc, placed, end) = place c (length slots) (dir_end (length slots)) slots in
      (rc ≡ success)
      × (out ≡ placed)
      × (e ≡ built c (length slots) (sizeof_slot * length slots) end (some out) out)
build_inverted c slots small eq = ground (arith, build_runs c slots (length slots) small, eq)

module _ {c : Config} (h : IsConfig c) where
  -- What `posixipc_layout_build` accepts it also places: from the end of the directory on each slot
  -- follows the one before, is aligned and not empty, and the last ends at `total_size`, a 32-bit
  -- word. The caller's array holds the placed slots, as does the record stored through `out`.
  pub build_places :
      (slots : List Slot) {out : List Slot} {e : Expect}
      → length slots < u16_mod
      → AreWords slots
      → build c true (some slots) (length slots) ≡ (success, some out, some e)
      → Placed (dir_end (length slots)) out e.total_size
        × (length out ≡ length slots)
        × (e.total_size ≤ u32_max)
        × (e.directory_bytes ≡ sizeof_slot * length slots)
        × (e.slots ≡ some out)
        × (e.layout_digest ≡ layout_digest c layout_version (abi_tag c) out)
  build_places slots {out} {e} small w eq =
      let (rc, same, stored) = build_inverted c slots small eq in
      let (placed, len, fits, pos) =
        place-Placed h slots (dir_end (length slots)) start_pos start_word w rc in
      rw (stored, same) (placed, len, fits, refl, refl, refl)
    where
      start_pos : 0 < dir_end (length slots)
      start_pos = omega arith

      start_word : dir_end (length slots) ≤ u32_max
      start_word = omega arith
