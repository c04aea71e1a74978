-- ===== src/Word.antt =====
-- `uint32_t` arithmetic as the sources use it. A word is a number below `u32_mod`, and a sum or a
-- product of words keeps its wrap-around.
pub mod Bits
use posixipc.Prelude.{ℕ, ◌+◌, ◌-◌, ◌*◌, ◌%◌, ◌^◌}

abbrev pub u32_mod : ℕ
u32_mod = 2 ^ 32

abbrev pub u32_max : ℕ
u32_max = 2 ^ 32 - 1

abbrev pub u16_mod : ℕ
u16_mod = 2 ^ 16

abbrev pub add32 : ℕ → ℕ → ℕ
add32 a b = (a + b) % u32_mod

-- `a - b`, the modulus added first since `-` stops at 0
abbrev pub sub32 : ℕ → ℕ → ℕ
sub32 a b = (a + u32_mod - b) % u32_mod

abbrev pub mul32 : ℕ → ℕ → ℕ
mul32 a b = (a * b) % u32_mod

-- `~a`
abbrev pub not32 : ℕ → ℕ
not32 a = u32_max - a
