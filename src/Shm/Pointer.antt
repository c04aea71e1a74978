-- ===== src/Shm/Pointer.antt =====
-- posixipc_shm_offset_ptr, _header_ptr and _directory of src/core/posixipc_shm.c. The header is what
-- the handle's `hdr` points to at the time of the call.
use mathlib.Core.Option
use mathlib.Core.Logic.{◌↔◌}
use posixipc.Prelude.{
  ℕ, ◌+◌, ◌%◌, ◌≤◌, ◌<◌, ◌≡◌, ◌≢◌, arith, Bool, true, not, ◌||◌, ◌&&◌, Option, none, some, ltb,
  ◌==◌, ◌!=◌, if◌then◌else◌, ◌⊎◌, inl, inr, is_null,
}
use posixipc.Codes.{success, einval}
use posixipc.Word.{add32, sub32, u32_max}
use posixipc.Layout.{header_bytes}
use posixipc.Os.{Header}
use posixipc.Shm.{Handle}

-- The tests of `posixipc_shm_offset_ptr` against the header: EINVAL or 0.
range_status : Header → ℕ → ℕ → ℕ → ℕ
range_status hdr offset size align =
    if ltb offset (add32 header_bytes hdr.directory_bytes)
    then einval
    else if size == 0 || ltb hdr.total_size offset
    then einval
    else if ltb (sub32 hdr.total_size offset) size
    then einval
    else if ltb 1 align && offset % align != 0
    then einval
    else success

-- The status and the pointer that is stored through `out`; `wants` is false for a NULL `out`.
pub offset_ptr : Option Handle → Header → ℕ → ℕ → ℕ → Bool → ℕ × Option ℕ
unfolding range_status
offset_ptr none hdr offset size align wants = (einval, none)
offset_ptr (some h) hdr offset size align wants =
    if is_null h.hdr || not wants
    then (einval, none)
    else let rc = range_status hdr offset size align in
      if rc != success then (rc, none) else (success, some (Option.get_or h.map 0 + offset))

pub header_ptr : Option Handle → Option ℕ
header_ptr none = none
header_ptr (some h) = h.hdr

pub directory : Option Handle → Header → Option ℕ
directory none hdr = none
directory (some h) hdr =
    if is_null h.map || is_null h.hdr
    then none
    else if hdr.slot_count == 0
    then none
    else Option.map (λ p. p + header_bytes) h.map

-- A range of the segment behind the directory, not empty and aligned.
pub record IsRange (hdr : Header) (offset size align : ℕ) : Type 0 where
  pub behind : header_bytes + hdr.directory_bytes ≤ offset
  pub nonempty : 0 < size
  pub inside : offset + size ≤ hdr.total_size
  pub aligned : (align ≤ 1) ⊎ (offset % align ≡ 0)

module _ (hdr : Header) (offset size align : ℕ)
    (small : header_bytes + hdr.directory_bytes ≤ u32_max) (word : hdr.total_size ≤ u32_max) where
  range_status_sound : range_status hdr offset size align ≡ success → IsRange hdr offset size align
  unfolding range_status
  range_status_sound e = record {
    behind = ground arith;
    nonempty = ground arith;
    inside = ground arith;
    aligned = ground arith;
  }

  range_status_complete :
      IsRange hdr offset size align → range_status hdr offset size align ≡ success
  unfolding range_status
  range_status_complete r =
      let behind = r.behind in
      let inside = r.inside in
      let nonempty = r.nonempty in
      elim (r.aligned) [ inl small ↦ ground arith | inr whole ↦ ground arith ]

module _ (h : Handle) (hdr : Header) (p offset size align : ℕ) (mapped : h.map ≡ some p)
    (has_header : h.hdr ≢ none) (small : header_bytes + hdr.directory_bytes ≤ u32_max)
    (word : hdr.total_size ≤ u32_max) where
  -- Of a mapped handle, where the header's bytes and its directory_bytes together are below 2^32, as
  -- total_size is, `posixipc_shm_offset_ptr` gives the pointer for exactly the ranges of the segment
  -- behind its directory that are not empty and aligned.
  pub offset_ptr_iff :
      (offset_ptr (some h) hdr offset size align true ≡ (success, some (p + offset)))
      ↔ IsRange hdr offset size align
  unfolding offset_ptr
  offset_ptr_iff = (
    λ e. range_status_sound hdr offset size align small word (ground arith),
    λ r. let passes = range_status_complete hdr offset size align small word r in ground arith,
  )
