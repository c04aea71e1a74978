-- ===== src/Queue/Size.antt =====
-- The sizes and the mapping of posixipc_queue.c, for a cache line that is a power of two.
use native.Mathlib.Nat.{div-add-mod, mod-lt, mul-le-mul_left, mod-eq_of_lt, mul-suc}
use posixipc.Prelude.{
  ℕ, suc, ◌+◌, ◌-◌, ◌*◌, ◌/◌, ◌≤◌, ◌<◌, ◌≡◌, ◌≢◌, refl, arith, some, none, inl, inr, leb, ltb,
  lt-cases, eq-cases, if◌then◌else◌, ◌⊎◌,
}
use posixipc.Codes.{success, einval}
use posixipc.Word.{u32_max, u32_mod, add32, mul32}
use posixipc.Word.Bits.{PowerOfTwo, two_pow_pos}
use posixipc.Align.{align_up}
use posixipc.Align.Laws.{RoundsUp, align_up_lem}
use posixipc.Queue.Ring.{IsView}
use posixipc.Queue.{View, sizeof_ctrl, ctrl_bytes, state_bytes, bytes_size, map_view}

-- A configured cache line: a power of two that the 16-bit `align` of a slot holds.
pub record IsCacheline (c : ℕ) : Type 0 where
  pub power : PowerOfTwo c
  pub small : c < 65536

pub cacheline_pos : {c : ℕ} → IsCacheline c → 0 < c
cacheline_pos {c} h = let (k, e) = h.power in rw e (two_pow_pos k)

-- the division test of the code against the product that it protects
div-lt_iff_mul : (d s m : ℕ) → 0 < s → m / s < d → m < s * d
div-lt_iff_mul d s m h p = omega (
  arith,
  div-add-mod m s,
  mod-lt m h,
  mul-le-mul_left {m = suc (m / s)} {n = d} s p,
  mul-suc s (m / s),
)

div-le_mul : (d s m : ℕ) → 0 < s → d ≤ m / s → s * d ≤ m
div-le_mul d s m h p = omega (arith, div-add-mod m s, mul-le-mul_left {m = d} {n = m / s} s p)

abbrev in_word : ℕ → ℕ
in_word n = if leb n u32_max then n else 0

in_word_over : (n : ℕ) → u32_max < n → in_word n ≡ 0
in_word_over n h = ground arith

in_word_fits : (n : ℕ) → n ≤ u32_max → in_word n ≡ n
in_word_fits n h = ground arith

-- the last two sums of the code
summed : ℕ → ℕ → ℕ → ℕ
summed cb sb payload =
    if ltb (u32_max - sb) cb
    then 0
    else let total = add32 cb sb in if ltb (u32_max - payload) total then 0 else add32 total payload

summed_lem :
    (cb sb payload : ℕ)
    → sb ≤ u32_max
    → payload ≤ u32_max
    → summed cb sb payload ≡ in_word (cb + sb + payload)
unfolding summed
summed_lem cb sb payload h k = ground arith

-- the product before them
checked_lem :
    (cb sb stride depth : ℕ)
    → 0 < stride
    → sb ≤ u32_max
    → (if ltb (u32_max / stride) depth then 0 else summed cb sb (mul32 depth stride))
      ≡ in_word (cb + sb + depth * stride)
checked_lem cb sb stride depth h k = elim (lt-cases (u32_max / stride) depth) [
  | inl over ↦ ground (arith, div-lt_iff_mul depth stride u32_max h over)
  | inr fits ↦ ground (
    arith,
    div-le_mul depth stride u32_max h fits,
    mod-eq_of_lt {n = depth * stride} {m = u32_mod},
    λ (p : depth * stride ≤ u32_max). summed_lem cb sb (depth * stride) k p,
  )
]

-- The parts of a ring's block before any overflow check: the control word, the state words and the
-- stride of a payload slot, each rounded up to the cache line.
pub record Parts (c depth item_size cb sb stride : ℕ) : Type 0 where
  pub ctrl : RoundsUp sizeof_ctrl c cb
  pub states : RoundsUp (depth * 4) c sb
  pub slot : RoundsUp item_size c stride

module _ {c : ℕ} (h : IsCacheline c) where
  pub ctrl_bytes_lem : (cb : ℕ) → RoundsUp sizeof_ctrl c cb → ctrl_bytes c ≡ cb
  unfolding ctrl_bytes
  ctrl_bytes_lem cb x =
      ground (arith, align_up_lem sizeof_ctrl c cb (omega arith) (omega arith) h.power x)

  pub state_bytes_lem :
      (depth sb : ℕ)
      → 0 < depth
      → depth ≤ u32_max
      → RoundsUp (depth * 4) c sb
      → state_bytes c depth ≡ (if leb sb u32_max then sb else 0)
  unfolding state_bytes
  state_bytes_lem depth sb h0 hd x =
      ground (
        arith,
        λ (p : depth * 4 ≤ u32_max). align_up_lem (depth * 4) c sb p (omega arith) h.power x,
      )

  -- `posixipc_queue_bytes_size` is the exact size of the ring's block if that is a 32-bit word, and
  -- 0 otherwise: no intermediate sum or product wraps unnoticed.
  pub bytes_size_lem :
      (depth item_size cb sb stride : ℕ)
      → 0 < depth
      → depth ≤ u32_max
      → 0 < item_size
      → item_size ≤ u32_max
      → Parts c depth item_size cb sb stride
      → bytes_size c depth item_size
        ≡ (if leb (cb + sb + depth * stride) u32_max then cb + sb + depth * stride else 0)
  unfolding bytes_size summed
  bytes_size_lem depth item_size cb sb stride h0 hd h1 hi x =
      rw (ctrl_bytes_lem cb x.ctrl, state_bytes_lem depth sb h0 hd x.states, stride_eq)
        (elim (lt-cases u32_max sb) [
          | inl over ↦ rw (in_word_over sb over) (ground arith)
          | inr fits ↦ elim (lt-cases u32_max stride) [
            | inl over ↦
                rw (in_word_over stride over)
                  (ground (arith, mul-le-mul_left {m = 1} {n = depth} stride h0))
            | inr small ↦
                rw (in_word_fits sb fits, in_word_fits stride small)
                  (ground (arith, checked_lem cb sb stride depth pos fits))
          ]
        ])
    where
      stride_eq : align_up item_size c ≡ in_word stride
      stride_eq = align_up_lem item_size c stride hi (omega arith) h.power x.slot

      pos : 0 < stride
      pos = omega arith

-- The view lies in the block of `nbytes` bytes from `base` on: the control word, the state words
-- and the payload slots in this order, and disjoint.
pub record IsInside (base nbytes : ℕ) (v : View) : Type 0 where
  pub ctrl_first : v.ctrl ≡ base
  pub ctrl_ends : base + sizeof_ctrl ≤ v.state
  pub states_end : v.state + v.depth * 4 ≤ v.payload
  pub slots_end : v.payload + v.depth * v.stride ≤ base + nbytes

module _ {c : ℕ} (h : IsCacheline c) where
  -- `posixipc_queue_map` either maps a view that lies inside the block, or returns EINVAL, and that
  -- only for a NULL block or one that is smaller than the ring.
  pub map_view_cases :
      (base nbytes depth item_size cb sb stride : ℕ)
      → nbytes ≤ u32_max
      → 0 < depth
      → depth ≤ u32_max
      → 0 < item_size
      → item_size ≤ u32_max
      → Parts c depth item_size cb sb stride
      → ((v : View) × (map_view c base nbytes depth item_size ≡ (success, some v))
          × IsInside base nbytes v
          × IsView v
          × (v.depth ≡ depth)
          × (v.item_size ≡ item_size))
        ⊎ ((map_view c base nbytes depth item_size ≡ (einval, none))
            × ((base ≡ 0) ⊎ (nbytes < cb + sb + depth * stride)))
  unfolding map_view
  map_view_cases base nbytes depth item_size cb sb stride hn h0 hd h1 hi x =
      elim (eq-cases base 0) [
        | inl z ↦ inr (ground arith, inl z)
        | inr nz ↦ elim (lt-cases nbytes (cb + sb + depth * stride)) [
          | inl short ↦ inr (ground (arith, size), inr short)
          | inr long ↦ inl (
            mapped,
            ground (arith, size, cb_eq, sb_eq, stride_eq, fit long),
            inside long,
            view long nz,
            refl,
            refl,
          )
        ]
      ]
    where
      size : bytes_size c depth item_size ≡ in_word (cb + sb + depth * stride)
      size = bytes_size_lem h depth item_size cb sb stride h0 hd h1 hi x

      cb_eq : ctrl_bytes c ≡ cb
      cb_eq = ctrl_bytes_lem h cb x.ctrl

      sb_eq : state_bytes c depth ≡ in_word sb
      sb_eq = state_bytes_lem h depth sb h0 hd x.states

      stride_eq : align_up item_size c ≡ in_word stride
      stride_eq = align_up_lem item_size c stride hi (omega arith) h.power x.slot

      mapped : View
      mapped = record {
        ctrl = base;
        state = base + cb;
        payload = base + cb + sb;
        depth = depth;
        item_size = item_size;
        stride = stride;
      }

      fit : cb + sb + depth * stride ≤ nbytes → stride ≤ u32_max
      fit long = omega (arith, mul-le-mul_left {m = 1} {n = depth} stride h0)

      pos : 0 < stride
      pos = omega (arith, x.slot)

      inside : cb + sb + depth * stride ≤ nbytes → IsInside base nbytes mapped
      inside long = record {
        ctrl_first = refl;
        ctrl_ends = omega arith;
        states_end = omega arith;
        slots_end = omega arith;
      }

      view : cb + sb + depth * stride ≤ nbytes → base ≢ 0 → IsView mapped
      view long nz = record {
        ctrl = nz;
        state = omega arith;
        depth_pos = h0;
        depth_word = omega (arith, mul-le-mul_left {m = 1} {n = stride} depth pos);
        item_in_slot = omega arith;
      }
