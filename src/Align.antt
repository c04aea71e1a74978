-- ===== src/Align.antt =====
-- The `static align_up` that posixipc_queue.c and posixipc_futexq.c both declare, and that of
-- posixipc_layout.c.
pub mod Laws
use Prim.Native.Nat.{bit_and}
use posixipc.Prelude.{ℕ, ◌-◌, ◌%◌, ltb, leb, ◌==◌, ◌!=◌, if◌then◌else◌, ◌&&◌}
use posixipc.Word.{u32_max, add32, not32}

-- The rings' version: 0 stands for an overflow, and for an alignment that is no power of two.
pub align_up : ℕ → ℕ → ℕ
align_up value align =
    if leb align 1
    then value
    else let mask = align - 1 in
      if bit_and align mask != 0
      then 0
      else if ltb (u32_max - mask) value
      then 0
      else bit_and (add32 value mask) (not32 mask)

-- The layout's version also rounds up to a multiple that is no power of two.
unfoldable pub layout_align_up : ℕ → ℕ → ℕ
layout_align_up value align =
    if leb align 1
    then value
    else let mask = align - 1 in
      if bit_and align mask == 0
      then (if ltb (u32_max - mask) value then 0 else bit_and (add32 value mask) (not32 mask))
      else if align != 0 && value % align != 0
      then (let add = align - value % align in
          if ltb (u32_max - add) value then 0 else add32 value add)
      else value
