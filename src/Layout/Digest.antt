-- ===== src/Layout/Digest.antt =====
-- The slot record and the FNV-1a digest of a layout, of src/core/posixipc_layout.c.
use Prim.Native.Nat.{bit_xor}
use posixipc.Prelude.{ℕ, ◌/◌, ◌%◌, ◌^◌, ◌≢◌, arith, List, [], ◌∷◌, ◌==◌, if◌then◌else◌}
use posixipc.Word.{u32_mod, mul32}
use posixipc.Config.{Config}

-- `posixipc_slot`
pub record Slot : Type 0 where
  pub kind : ℕ
  pub align : ℕ
  pub offset : ℕ
  pub size : ℕ
  pub init_flags : ℕ

-- Each `feed` takes the digest so far and returns the next.
feed_u8 : ℕ → ℕ → ℕ
feed_u8 h b = mul32 (bit_xor h b) 0x01000193

feed_u16_le : ℕ → ℕ → ℕ
unfolding feed_u8
feed_u16_le h v = feed_u8 (feed_u8 h (v % 256)) (v / 256 % 256)

feed_u32_le : ℕ → ℕ → ℕ
unfolding feed_u8
feed_u32_le h v =
    feed_u8 (feed_u8 (feed_u8 (feed_u8 h (v % 256)) (v / 2 ^ 8 % 256)) (v / 2 ^ 16 % 256))
      (v / 2 ^ 24 % 256)

feed_slot : ℕ → Slot → ℕ
unfolding feed_u16_le feed_u32_le
feed_slot h s =
    feed_u32_le (feed_u32_le (feed_u16_le (feed_u16_le h s.kind) s.align) s.size) s.init_flags

-- the loop over the slots
feed_slots : ℕ → List Slot → ℕ
unfolding feed_slot
feed_slots h [] = h
feed_slots h (s ∷ ss) = feed_slots (feed_slot h s) ss

-- the digest before the last test
raw_digest : Config → ℕ → ℕ → List Slot → ℕ
unfolding feed_u16_le feed_u32_le feed_slots
raw_digest c version tag slots =
    feed_slots (feed_u32_le (feed_u32_le (feed_u16_le 0x811c9dc5 version) tag) c.cacheline) slots

pub layout_digest : Config → ℕ → ℕ → List Slot → ℕ
unfolding raw_digest
layout_digest c version tag slots =
    let h = raw_digest c version tag slots in if h == 0 then 1 else h

-- `tag ^= alignof(T) * k`
abbrev mix : ℕ → ℕ → ℕ → ℕ
mix tag align k = bit_xor tag (mul32 align k)

raw_abi_tag : Config → ℕ
raw_abi_tag c =
    let seeded = c.abi_tag_seed % u32_mod in
    let locks = mix (mix seeded c.align_mutex 0x9e3779b1) c.align_rwlock 0x85ebca77 in
    let waits = mix (mix locks c.align_cond 0xc2b2ae3d) c.align_sem 0x27d4eb2f in
    let barrier = if c.have_barrier_wait then mix waits c.align_barrier 0x165667b1 else waits in
    let spin = if c.have_spin_init then mix barrier c.align_spinlock 0x85ebca6b else barrier in
    bit_xor (bit_xor spin (c.cacheline % u32_mod)) (mul32 c.libc_family (2 ^ 24))

pub abi_tag : Config → ℕ
unfolding raw_abi_tag
abi_tag c = let tag = raw_abi_tag c in if tag == 0 then 1 else tag

-- A digest and a tag are never 0, the word of a header that was not written.
pub digest_nonzero :
    (c : Config) (version tag : ℕ) (slots : List Slot)
    → (layout_digest c version tag slots ≢ 0) × (abi_tag c ≢ 0)
unfolding layout_digest abi_tag
digest_nonzero c version tag slots = ground arith
