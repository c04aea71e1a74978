-- ===== src/Word/Bits.antt =====
-- Bit masks at variables: `x & (2^j - 1)`, `x & ~(2^k - 1)`, and the test `a & (a - 1)` for a
-- power of two.
use Prim.Native.Nat.{min, bit_and, digits, bit_and-bitwise}
use native.Mathlib.Nat.{
  pow-suc, one-le-pow, div-div-eq-div-mul, div-add-mod, zero-add, one-mul, suc-add, div-one,
  mod-eq_of_lt, mod_self, mul-suc,
}
use posixipc.Prelude.{
  ℕ, zero, suc, ◌+◌, ◌-◌, ◌*◌, ◌/◌, ◌%◌, ◌^◌, ◌≤◌, ◌<◌, ◌≡◌, refl, sym, ap, eq-cases, ◌∙◌, arith,
  ◌⊎◌, inl, inr,
}

-- `bit_and x y` is this at the fuel `x`
abbrev digit_and : ℕ → ℕ → ℕ → ℕ
digit_and fuel x y = digits (λ _. zero) min fuel x y

one_more : (fuel x y : ℕ) → x ≤ fuel → digit_and (suc fuel) x y ≡ digit_and fuel x y
one_more zero zero y le = refl
one_more (suc fuel) zero y le = refl
one_more zero (suc x) y le = absurd (omega arith)
one_more (suc fuel) (suc x) y le = omega (arith, one_more fuel (suc x / 2) (y / 2) (omega arith))

-- fuel beyond `x` makes no difference
fuelled : (fuel x y : ℕ) → x ≤ fuel → digit_and fuel x y ≡ bit_and x y
fuelled zero zero y le = sym (bit_and-bitwise 0 y)
fuelled zero (suc x) y le = absurd (omega arith)
fuelled (suc fuel) x y le = elim (eq-cases x (suc fuel)) [
  | inl e ↦ ap (λ (t : ℕ). digit_and t x y) (sym e) ∙ sym (bit_and-bitwise x y)
  | inr ne ↦ one_more fuel x y (omega arith) ∙ fuelled fuel x y (omega arith)
]

-- the two halves and the lowest digit
halves : (x y : ℕ) → bit_and x y ≡ bit_and (x / 2) (y / 2) * 2 + min (x % 2) (y % 2)
halves zero y = omega (arith, bit_and-bitwise 0 y, bit_and-bitwise 0 (y / 2))
halves (suc x) y =
    omega (arith, bit_and-bitwise (suc x) y, fuelled x (suc x / 2) (y / 2) (omega arith))

-- what holds of 0 and of `x` where it holds of its half holds of all numbers
by_halves : (P : ℕ → Type 0) → P 0 → ((x : ℕ) → P (suc x / 2) → P (suc x)) → (n x : ℕ) → x ≤ n → P x
by_halves P base step n zero le = base
by_halves P base step zero (suc x) le = absurd (omega arith)
by_halves P base step (suc n) (suc x) le =
    step x (by_halves P base step n (suc x / 2) (omega arith))

and_nothing : (x : ℕ) → bit_and x 0 ≡ 0
and_nothing x =
    by_halves (λ t. bit_and t 0 ≡ 0) refl (λ t h. omega (arith, halves (suc t) 0, h)) x x
      (omega arith)

pub two_pow_suc : (j : ℕ) → 2 ^ suc j ≡ 2 ^ j + 2 ^ j
two_pow_suc j = omega (arith, pow-suc 2 j)

pub two_pow_pos : (j : ℕ) → 0 < 2 ^ j
two_pow_pos j = one-le-pow j 2 (omega arith)

pub two_pow-add : (k j : ℕ) → 2 ^ k * 2 ^ j ≡ 2 ^ (k + j)
two_pow-add zero j = rw (zero-add, one-mul)
two_pow-add (suc k) j =
    rw (suc-add, two_pow_suc k, two_pow_suc (k + j)) (omega (arith, two_pow-add k j))

mod_double : (x p : ℕ) → x % (p + p) ≡ 2 * (x / 2 % p) + x % 2
mod_double x p = omega (
  arith,
  div-add-mod x (p + p),
  div-add-mod (x / 2) p,
  div-div-eq-div-mul x 2 p,
  ap (λ (t : ℕ). x / t) double,
  ap (λ (t : ℕ). p * t) (div-div-eq-div-mul x 2 p ∙ ap (λ (t : ℕ). x / t) double),
)
  where
    double : 2 * p ≡ p + p
    double = omega arith

halve_mask : (p : ℕ) → 0 < p → (p + p - 1) / 2 ≡ p - 1
halve_mask p h = omega arith

-- a mask of `j` ones keeps the remainder
pub low_mask : (j x : ℕ) → bit_and x (2 ^ j - 1) ≡ x % 2 ^ j
low_mask zero x = omega (arith, and_nothing x)
low_mask (suc j) x = rw (two_pow_suc j) (
    omega (
      arith,
      halves x (2 ^ j + 2 ^ j - 1),
      ap (bit_and (x / 2)) (halve_mask (2 ^ j) (two_pow_pos j)),
      low_mask j (x / 2),
      two_pow_pos j,
      mod_double x (2 ^ j),
    ))

double_mul : (k y : ℕ) → 2 ^ suc k * y ≡ 2 * (2 ^ k * y)
double_mul k y = rw (two_pow_suc k) (omega arith)

halve_double : (x : ℕ) → 2 * x / 2 ≡ x
halve_double x = omega arith

div_twice : (k x : ℕ) → x / 2 / 2 ^ k ≡ x / 2 ^ suc k
div_twice k x = div-div-eq-div-mul x 2 (2 ^ k) ∙ ap (◌/◌ x) (omega (arith, two_pow_suc k))

-- masking by a multiple of `2 ^ k` clears the low `k` bits
pub shifted_mask : (k x y : ℕ) → bit_and x (2 ^ k * y) ≡ 2 ^ k * bit_and (x / 2 ^ k) y
shifted_mask zero x y = rw (one-mul, one-mul, div-one)
shifted_mask (suc k) x y = omega (
  arith,
  ap (bit_and x) (double_mul k y),
  halves x (2 * (2 ^ k * y)),
  ap (bit_and (x / 2)) (halve_double (2 ^ k * y)),
  shifted_mask k (x / 2) y,
  ap (λ (t : ℕ). 2 ^ k * bit_and t y) (div_twice k x),
  double_mul k (bit_and (x / 2 ^ suc k) y),
)

mul-pred : (p q : ℕ) → p * (q - 1) ≡ p * q - p
mul-pred p zero = omega arith
mul-pred p (suc q) = rw (suc-sub-one q) (omega (arith, mul-suc p q))
  where
    suc-sub-one : (n : ℕ) → suc n - 1 ≡ n
    suc-sub-one n = omega arith

pub two_pow_split : (k : ℕ) → k < 32 → 2 ^ k * 2 ^ (32 - k) ≡ 2 ^ 32
two_pow_split k h = two_pow-add k (32 - k) ∙ ap (◌^◌ 2) {y = 32} (omega arith)

-- Clearing the bits below `2 ^ k` of a 32-bit word rounds it down to a multiple of `2 ^ k`.
pub clear_low :
    (k x : ℕ) → k < 32 → x < 2 ^ 32 → bit_and x (2 ^ 32 - 1 - (2 ^ k - 1)) ≡ 2 ^ k * (x / 2 ^ k)
clear_low k x h hx =
    rw (mask, shifted_mask k x (2 ^ (32 - k) - 1), low_mask (32 - k) (x / 2 ^ k))
      (ap (◌*◌ (2 ^ k)) (mod-eq_of_lt small))
  where
    mask : 2 ^ 32 - 1 - (2 ^ k - 1) ≡ 2 ^ k * (2 ^ (32 - k) - 1)
    mask = omega (arith, two_pow_split k h, mul-pred (2 ^ k) (2 ^ (32 - k)), two_pow_pos k)

    small : x / 2 ^ k < 2 ^ (32 - k)
    small = grind (arith, two_pow_split k h, two_pow_pos k, div-add-mod x (2 ^ k))

abbrev pub PowerOfTwo : ℕ → Type 0
PowerOfTwo a = (k : ℕ) × (a ≡ 2 ^ k)

-- `a & (a - 1)` is 0 at a power of two, and only there.
pub pred_mask : (k : ℕ) → bit_and (2 ^ k) (2 ^ k - 1) ≡ 0
pred_mask k = rw (low_mask k (2 ^ k)) (mod_self (2 ^ k))

parity : (a : ℕ) → (a % 2 ≡ 0) ⊎ (a % 2 ≡ 1)
parity a = omega arith

bit_and_self : (a : ℕ) → bit_and a a ≡ a
bit_and_self a =
    by_halves (λ t. bit_and t t ≡ t) refl (λ t h. omega (arith, halves (suc t) (suc t), h)) a a
      (omega arith)

pow2_of_mask_fuel : (n a : ℕ) → a ≤ n → 0 < a → bit_and a (a - 1) ≡ 0 → PowerOfTwo a
pow2_of_mask_fuel zero a h p e = absurd (omega arith)
pow2_of_mask_fuel (suc n) a h p e = elim (parity a) [
  | inl even ↦
      let (k, eq) = pow2_of_mask_fuel n (a / 2) (omega arith) (omega arith) (half even) in
      (suc k, omega (arith, two_pow_suc k))
  | inr odd ↦ (0, omega (arith, bit_and_self (a / 2), odd_step odd, halves a (a - 1)))
]
  where
    pred_half : a % 2 ≡ 0 → (a - 1) / 2 ≡ a / 2 - 1
    pred_half even = omega arith

    half : a % 2 ≡ 0 → bit_and (a / 2) (a / 2 - 1) ≡ 0
    half even = omega (arith, halves a (a - 1), ap (bit_and (a / 2)) (pred_half even))

    odd_step : a % 2 ≡ 1 → bit_and (a / 2) ((a - 1) / 2) ≡ bit_and (a / 2) (a / 2)
    odd_step odd = ap (bit_and (a / 2)) (omega arith)

pub pow2_of_mask : (a : ℕ) → 0 < a → bit_and a (a - 1) ≡ 0 → PowerOfTwo a
pow2_of_mask a = pow2_of_mask_fuel a a (omega arith)
