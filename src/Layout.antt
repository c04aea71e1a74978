-- ===== src/Layout.antt =====
-- src/core/posixipc_layout.c and the records of posixipc_shm.h that it fills in.
pub mod Digest
pub mod Place
pub mod Build
pub mod Rebuild
use mathlib.Core.Option
use posixipc.Prelude.{
  ℕ, zero, suc, ◌+◌, ◌-◌, ◌*◌, ◌/◌, ◌%◌, Bool, true, false, ◌&&◌, ◌||◌, Option, none, some, List,
  [], ◌∷◌, not, is_null, ltb, ◌==◌, ◌!=◌, if◌then◌else◌,
}
use posixipc.Codes.{success, einval, eoverflow}
use posixipc.Word.{u16_mod, u32_max, add32, mul32}
use posixipc.Align.{layout_align_up}
use posixipc.Config.{Config}
use posixipc.Layout.Digest.{Slot, abi_tag, layout_digest}

-- `posixipc_shm_expect`
pub record Expect : Type 0 where
  pub layout_version : ℕ
  pub slot_count : ℕ
  pub abi_tag : ℕ
  pub flags : ℕ
  pub total_size : ℕ
  pub directory_bytes : ℕ
  pub layout_digest : ℕ
  pub slots : Option (List Slot)

abbrev pub header_bytes : ℕ
header_bytes = 64

-- `sizeof(posixipc_slot)`
abbrev pub sizeof_slot : ℕ
sizeof_slot = 16

abbrev pub layout_version : ℕ
layout_version = 1

-- POSIXIPC_KIND_BYTES and the other slot kinds
abbrev pub kind_bytes : ℕ
kind_bytes = 1

abbrev pub kind_mutex : ℕ
kind_mutex = 2

abbrev pub kind_robust_mutex : ℕ
kind_robust_mutex = 3

abbrev pub kind_rwlock : ℕ
kind_rwlock = 4

abbrev pub kind_cond : ℕ
kind_cond = 5

abbrev pub kind_sem : ℕ
kind_sem = 6

abbrev pub kind_barrier : ℕ
kind_barrier = 7

abbrev pub kind_spin : ℕ
kind_spin = 8

module _ (c : Config) where
  unfoldable pub kind_align : ℕ → ℕ
  kind_align kind =
      if kind == kind_mutex || kind == kind_robust_mutex
      then c.align_mutex
      else if kind == kind_rwlock
      then c.align_rwlock
      else if kind == kind_cond
      then c.align_cond
      else if kind == kind_sem
      then c.align_sem
      else if c.have_barrier_wait && kind == kind_barrier
      then c.align_barrier
      else if c.have_spin_init && kind == kind_spin
      then c.align_spinlock
      else if kind == kind_bytes
      then c.cacheline
      else 1

  -- the `switch` of `posixipc_kind_size`; `none` is its `default`
  raw_size : ℕ → ℕ → Option ℕ
  raw_size kind requested =
      if kind == kind_mutex || kind == kind_robust_mutex
      then some c.sizeof_mutex
      else if kind == kind_rwlock
      then some c.sizeof_rwlock
      else if kind == kind_cond
      then some c.sizeof_cond
      else if kind == kind_sem
      then some c.sizeof_sem
      else if c.have_barrier_wait && kind == kind_barrier
      then some c.sizeof_barrier
      else if c.have_spin_init && kind == kind_spin
      then some c.sizeof_spinlock
      else if kind == kind_bytes
      then some requested
      else none

  unfoldable pub kind_size : ℕ → ℕ → ℕ
  unfolding raw_size
  kind_size kind requested = elim (raw_size kind requested) [
    | none ↦ 0
    | some raw ↦ layout_align_up raw c.cacheline
  ]

  -- The loop of `posixipc_layout_build` over the first `n` slots of the array, from `cursor` on:
  -- the status, the array, which keeps what was stored in it before an error, and the cursor.
  pub place : ℕ → ℕ → List Slot → ℕ × List Slot × ℕ
  place zero cursor slots = (success, slots, cursor)
  place (suc n) cursor [] = (success, [], cursor)
  place (suc n) cursor (s ∷ ss) =
      let al = if s.align != 0 then s.align else kind_align s.kind in
      let sz = if s.size != 0 then s.size else kind_size s.kind 0 in
      if al == 0 || sz == 0
      then (einval, s ∷ ss, cursor)
      else let off = layout_align_up cursor al in
        if off == 0 && cursor != 0
        then (eoverflow, s ∷ ss, cursor)
        else let placed = record s { align = al % u16_mod; size = sz; offset = off } in
          if ltb (u32_max - off) sz
          then (eoverflow, placed ∷ ss, cursor)
          else let (rc, rest, end) = place n (off + sz) ss in (rc, placed ∷ rest, end)

  -- the directory's bytes, with the test that the product did not wrap
  dir_size : ℕ → Option ℕ
  dir_size nslots =
      let dir_bytes = mul32 nslots sizeof_slot in
      if nslots != 0 && dir_bytes / sizeof_slot != nslots then none else some dir_bytes

  -- what `posixipc_layout_build` stores through `out`
  abbrev pub built : ℕ → ℕ → ℕ → Option (List Slot) → List Slot → Expect
  built nslots dir_bytes cursor array slots = record {
    layout_version = layout_version;
    slot_count = nslots;
    abi_tag = abi_tag c;
    flags = 0;
    total_size = cursor;
    directory_bytes = dir_bytes;
    layout_digest = layout_digest c layout_version (abi_tag c) slots;
    slots = array;
  }

  -- The status, the array as it is left, and what is stored through `out`. `wants` is false for a
  -- NULL `out`, the array `none` for a NULL `slots`.
  unfoldable pub build : Bool → Option (List Slot) → ℕ → ℕ × Option (List Slot) × Option Expect
  unfolding place dir_size
  build wants array nslots =
      if not wants || (nslots != 0 && is_null array)
      then (einval, array, none)
      else elim (dir_size nslots) [
        | none ↦ (eoverflow, array, none)
        | some dir_bytes ↦
            let (rc, slots, cursor) =
              place nslots (add32 header_bytes dir_bytes) (Option.get_or array []) in
            let array' = Option.map (λ _. slots) array in
            if rc != success
            then (rc, array', none)
            else if cursor == 0
            then (eoverflow, array', none)
            else (success, array', some (built nslots dir_bytes cursor array' slots))
      ]
