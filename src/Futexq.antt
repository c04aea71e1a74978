-- ===== src/Futexq.antt =====
-- src/core/posixipc_futexq.c: a ring with two futex words in front. An address of 0 is NULL.
pub mod Laws
use posixipc.Prelude.{ℕ, ◌+◌, ◌-◌, Bool, ◌||◌, Option, none, some, ltb, ◌==◌, ◌!=◌, if◌then◌else◌}
use posixipc.Codes.{success, einval}
use posixipc.Word.{u32_max, add32, sub32}
use posixipc.Align.{align_up}
use posixipc.Queue.{View, Memory, bytes_size, map_view, init_ctrl}

-- `posixipc_futexq_view`
pub record FutexqView : Type 0 where
  pub not_full : ℕ
  pub not_empty : ℕ
  pub view : View

-- the two words and what the ring's pointers point to
pub record FutexqMemory : Type 0 where
  pub not_full : ℕ
  pub not_empty : ℕ
  pub ring : Memory

module _ (cacheline : ℕ) where
  pub prefix_size : ℕ
  prefix_size = let n = align_up 8 cacheline in if n == 0 then cacheline else n

  pub futexq_bytes_size : ℕ → ℕ → ℕ
  unfolding prefix_size
  futexq_bytes_size depth item_size =
      let prefix = prefix_size in
      let ring = bytes_size cacheline depth item_size in
      if prefix == 0 || ring == 0
      then 0
      else if ltb (u32_max - ring) prefix
      then 0
      else add32 prefix ring

  -- The view is what `*out` holds afterwards; `none` is one that is not written, or zeroed.
  pub futexq_map : ℕ → ℕ → ℕ → ℕ → ℕ × Option FutexqView
  futexq_map bytes nbytes depth item_size =
      if bytes == 0
      then (einval, none)
      else let prefix = prefix_size in
        let need = futexq_bytes_size depth item_size in
        if prefix == 0 || (need == 0 || ltb nbytes need)
        then (einval, none)
        else let (rc, ring) =
            map_view cacheline (bytes + prefix) (sub32 nbytes prefix) depth item_size in
          if rc != success then (rc, none) else elim ring [
            | none ↦ (rc, none)
            | some v ↦ (rc, some (record { not_full = bytes; not_empty = bytes + 4; view = v }))
          ]

pub futexq_init : Option FutexqView → FutexqMemory → ℕ × FutexqMemory
futexq_init none m = (einval, m)
futexq_init (some v) m =
    if v.not_full == 0 || v.not_empty == 0
    then (einval, m)
    else let (rc, ring) = init_ctrl (some v.view) m.ring in
      (rc, record { not_full = 0; not_empty = 0; ring = ring })
