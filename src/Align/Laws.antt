-- ===== src/Align/Laws.antt =====
-- What the two versions of `align_up` return, against arithmetic without masks.
use Prim.Native.Nat.{bit_and}
use native.Mathlib.Nat.{
  div-add-mod, mod-lt, mod-eq_of_lt, mul-mod_right, mul-suc, pow-le-pow_right, mul-le-mul_left,
}
use mathlib.Core.Path.{◌∙◌}
use posixipc.Prelude.{
  ℕ, suc, ◌+◌, ◌-◌, ◌*◌, ◌/◌, ◌%◌, ◌^◌, ◌≤◌, ◌<◌, ◌≡◌, ◌≢◌, ap, ◌∙◌, arith, ◌⊎◌, inl, inr, leb, ltb,
  lt-cases, Bool-cases, if◌then◌else◌, ◌==◌, true,
}
use posixipc.Word.{u32_max, u32_mod, add32, not32}
use posixipc.Word.Bits.{PowerOfTwo, clear_low, pred_mask, pow2_of_mask, two_pow_pos, two_pow_split}
use posixipc.Align.{align_up, layout_align_up}

-- A result of rounding `value` up to `align`: the least multiple from `value` on.
pub record RoundsUp (value align r : ℕ) : Type 0 where
  pub multiple : r % align ≡ 0
  pub above : value ≤ r
  pub near : r < value + align

-- rounding up by division
pub ceil_rounds : (p v : ℕ) → 0 < p → RoundsUp v p (p * ((v + (p - 1)) / p))
ceil_rounds p v h = record {
  multiple = mul-mod_right p ((v + (p - 1)) / p);
  above = omega (arith, div-add-mod (v + (p - 1)) p, mod-lt (v + (p - 1)) h);
  near = omega (arith, div-add-mod (v + (p - 1)) p, mod-lt (v + (p - 1)) h);
}

-- There is one multiple of `a` in a window of that size.
multiples_apart : (a q t : ℕ) → a * q < a * t + a → a * t < a * q + a → q ≡ t
multiples_apart a q t h k = grind arith

pub RoundsUp-unique : (v a : ℕ) {r s : ℕ} → RoundsUp v a r → RoundsUp v a s → r ≡ s
RoundsUp-unique v a {r} {s} x y = omega (arith, div-add-mod r a, div-add-mod s a, ap (◌*◌ a) same)
  where
    same : r / a ≡ s / a
    same =
        multiples_apart a (r / a) (s / a) (omega (arith, div-add-mod r a, div-add-mod s a))
          (omega (arith, div-add-mod r a, div-add-mod s a))

mask_rounds :
    (k value : ℕ)
    → k < 32
    → value + (2 ^ k - 1) ≤ u32_max
    → RoundsUp value (2 ^ k) (bit_and ((value + (2 ^ k - 1)) % u32_mod) (u32_max - (2 ^ k - 1)))
mask_rounds k value h fits =
    rw
      (
        mod-eq_of_lt {n = value + (2 ^ k - 1)} {m = u32_mod} (omega arith),
        clear_low k (value + (2 ^ k - 1)) h (omega arith),
      )
      (ceil_rounds (2 ^ k) value (two_pow_pos k))

pow_small : (k : ℕ) → 2 ^ k ≤ u32_max → k < 32
pow_small k h = elim (lt-cases k 32) [
  | inl p ↦ p
  | inr p ↦ absurd (omega (arith, pow-le-pow_right {n = 2} (omega arith) p))
]

next_multiple : (a q t : ℕ) → a * q < a * t → a * q + a ≤ a * t
next_multiple a q t h = elim (lt-cases q t) [
  | inl p ↦ omega (arith, mul-le-mul_left {m = suc q} {n = t} a p, mul-suc a q)
  | inr p ↦ absurd (omega (arith, mul-le-mul_left {m = t} {n = q} a p))
]

-- a sum that wraps has no multiple in range
mask_overflows :
    (k value r : ℕ)
    → k < 32
    → RoundsUp value (2 ^ k) r
    → u32_max < value + (2 ^ k - 1)
    → u32_max < r
mask_overflows k value r h x over = elim (lt-cases u32_max r) [
  | inl p ↦ p
  | inr p ↦ absurd (
      omega (
        arith,
        div-add-mod r (2 ^ k),
        two_pow_split k h,
        two_pow_pos k,
        next_multiple (2 ^ k) (r / 2 ^ k) (2 ^ (32 - k)),
      ))
]

-- the branch of both functions at a power of two
masked : ℕ → ℕ → ℕ
masked value align =
    let mask = align - 1 in
    if ltb (u32_max - mask) value then 0 else bit_and (add32 value mask) (not32 mask)

masked_lem :
    (k value r : ℕ)
    → 2 ^ k ≤ u32_max
    → value ≤ u32_max
    → RoundsUp value (2 ^ k) r
    → masked value (2 ^ k) ≡ (if leb r u32_max then r else 0)
unfolding masked
masked_lem k value r h hv x = elim (lt-cases u32_max (value + (2 ^ k - 1))) [
  | inl over ↦ ground (arith, mask_overflows k value r (pow_small k h) x over)
  | inr fits ↦
      ground (arith, RoundsUp-unique value (2 ^ k) x (mask_rounds k value (pow_small k h) fits))
]

-- the branch of the layout's function at any other alignment
remainder_rounds :
    (value align : ℕ)
    → 0 < align
    → value % align ≢ 0
    → RoundsUp value align (value + (align - value % align))
remainder_rounds value align h ne = record {
  multiple =
      ap (λ (t : ℕ). t % align)
        (omega (arith, div-add-mod value align, mod-lt value h, mul-suc align (value / align)))
      ∙ mul-mod_right align (suc (value / align));
  above = omega arith;
  near = omega arith;
}

whole_rounds : (value align : ℕ) → 0 < align → value % align ≡ 0 → RoundsUp value align value
whole_rounds value align h e = omega arith

-- The rings' `align_up`, for every 32-bit value and power of two: the least multiple from `value`
-- on, or 0 where that multiple is no 32-bit word.
pub align_up_lem :
    (value align r : ℕ)
    → value ≤ u32_max
    → align ≤ u32_max
    → PowerOfTwo align
    → RoundsUp value align r
    → align_up value align ≡ (if leb r u32_max then r else 0)
unfolding align_up masked
align_up_lem value align r hv ha (k, e) x = ground (arith, mask_zero, value_masked)
  where
    mask_zero : bit_and align (align - 1) ≡ 0
    mask_zero = rw e (pred_mask k)

    value_masked : masked value align ≡ (if leb r u32_max then r else 0)
    value_masked = rw e (masked_lem k value r (omega arith) hv (rw e at x))

-- An alignment above 1 that is no power of two gives 0.
pub align_up_refuses : (value align : ℕ) → 1 < align → ¬ PowerOfTwo align → align_up value align ≡ 0
unfolding align_up
align_up_refuses value align h np =
    ground (arith, λ (e : bit_and align (align - 1) ≡ 0). np (pow2_of_mask align (omega arith) e))

-- The layout's `align_up`, for every 32-bit value and alignment but 0.
pub layout_align_up_lem :
    (value align r : ℕ)
    → value ≤ u32_max
    → 0 < align
    → align ≤ u32_max
    → RoundsUp value align r
    → layout_align_up value align ≡ (if leb r u32_max then r else 0)
unfolding layout_align_up masked
layout_align_up_lem value align r hv h0 ha x = elim (Bool-cases (bit_and align (align - 1) == 0)) [
  | inl pow ↦ power (pow2_of_mask align h0 (ground arith)) pow
  | inr other ↦ ground (
    arith,
    λ (ne : value % align ≢ 0). RoundsUp-unique value align x (remainder_rounds value align h0 ne),
    λ (e : value % align ≡ 0). RoundsUp-unique value align x (whole_rounds value align h0 e),
  )
]
  where
    power :
        PowerOfTwo align
        → (bit_and align (align - 1) == 0) ≡ true
        → layout_align_up value align ≡ (if leb r u32_max then r else 0)
    power (k, e) pow = ground (arith, value_masked)
      where
        value_masked : masked value align ≡ (if leb r u32_max then r else 0)
        value_masked = rw e (masked_lem k value r (omega arith) hv (rw e at x))

-- The layout's `align_up` rounds up, or returns 0.
pub layout_align_up-cases :
    (value align : ℕ)
    → value ≤ u32_max
    → 0 < align
    → align ≤ u32_max
    → (RoundsUp value align (layout_align_up value align) × (layout_align_up value align ≤ u32_max))
      ⊎ (layout_align_up value align ≡ 0)
layout_align_up-cases value align hv h0 ha = elim (lt-cases u32_max up) [
  | inl over ↦ inr (eq ∙ ground arith)
  | inr fits ↦
      let same : layout_align_up value align ≡ up = eq ∙ ground arith in
      inl (rw same (ceil_rounds align value h0), rw same fits)
]
  where
    up : ℕ
    up = align * ((value + (align - 1)) / align)

    eq : layout_align_up value align ≡ (if leb up u32_max then up else 0)
    eq = layout_align_up_lem value align up hv h0 ha (ceil_rounds align value h0)
