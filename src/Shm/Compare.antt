-- ===== src/Shm/Compare.antt =====
-- `compare_expect` of src/core/posixipc_shm.c: the test of a segment that was not created here.
use posixipc.Prelude.{
  ℕ, zero, suc, ◌≡◌, refl, arith, Bool, false, ◌||◌, Option, none, some, List, [], ◌∷◌, length,
  ◌==◌, ◌!=◌, if◌then◌else◌,
}
use posixipc.Codes.{success, error_layout_mismatch}
use posixipc.Layout.Digest.{Slot}
use posixipc.Layout.{Expect}
use posixipc.Os.{Header}

slot_differs : Slot → Slot → Bool
slot_differs a b =
    a.kind != b.kind
    || a.align != b.align
    || a.offset != b.offset
    || a.size != b.size
    || a.init_flags != b.init_flags

-- the loop over `n` slots; a directory that ends before does not match
compare_slots : ℕ → List Slot → List Slot → ℕ
unfolding slot_differs
compare_slots zero dir slots = success
compare_slots (suc n) (a ∷ dir) (b ∷ slots) =
    let rest = compare_slots n dir slots in if slot_differs a b then error_layout_mismatch else rest
compare_slots (suc n) [] slots = error_layout_mismatch
compare_slots (suc n) (a ∷ dir) [] = error_layout_mismatch

-- `none` for a NULL `dir` or `expect`
unfoldable pub compare_expect : ℕ → Header → Option (List Slot) → Option Expect → ℕ
unfolding compare_slots
compare_expect magic_wire hdr dir none =
    if hdr.magic != magic_wire then error_layout_mismatch else success
compare_expect magic_wire hdr dir (some e) =
    if hdr.magic != magic_wire
    then error_layout_mismatch
    else if hdr.layout_version != e.layout_version
        || hdr.slot_count != e.slot_count
        || hdr.abi_tag != e.abi_tag
        || hdr.total_size != e.total_size
        || hdr.directory_bytes != e.directory_bytes
        || hdr.layout_digest != e.layout_digest
    then error_layout_mismatch
    else if e.slot_count == 0
    then success
    else elim (e.slots) [
      | none ↦ error_layout_mismatch
      | some slots ↦ elim dir [
        | none ↦ error_layout_mismatch
        | some d ↦ compare_slots e.slot_count d slots
      ]
    ]

-- the header agrees with what is expected, but for its flags and its state
pub record Agrees (magic_wire : ℕ) (hdr : Header) (e : Expect) : Type 0 where
  pub magic : hdr.magic ≡ magic_wire
  pub layout_version : hdr.layout_version ≡ e.layout_version
  pub slot_count : hdr.slot_count ≡ e.slot_count
  pub abi_tag : hdr.abi_tag ≡ e.abi_tag
  pub total_size : hdr.total_size ≡ e.total_size
  pub directory_bytes : hdr.directory_bytes ≡ e.directory_bytes
  pub layout_digest : hdr.layout_digest ≡ e.layout_digest

slot_differs-false : (a b : Slot) → slot_differs a b ≡ false → a ≡ b
unfolding slot_differs
slot_differs-false a b h = ground arith

slot_differs_self : (a : Slot) → slot_differs a a ≡ false
unfolding slot_differs
slot_differs_self a = ground arith

compare_slots_sound :
    (slots dir : List Slot)
    → length dir ≡ length slots
    → compare_slots (length slots) dir slots ≡ success
    → dir ≡ slots
unfolding compare_slots
compare_slots_sound [] [] l e = refl
compare_slots_sound [] (a ∷ dir) l e = absurd (omega arith)
compare_slots_sound (b ∷ slots) [] l e = absurd (omega arith)
compare_slots_sound (b ∷ slots) (a ∷ dir) l e =
    ground (arith, slot_differs-false a b, compare_slots_sound slots dir (omega arith))

compare_slots_self : (slots : List Slot) → compare_slots (length slots) slots slots ≡ success
unfolding compare_slots
compare_slots_self [] = refl
compare_slots_self (b ∷ slots) = ground (arith, slot_differs_self b, compare_slots_self slots)

nil_unique : (slots dir : List Slot) → length dir ≡ length slots → length slots ≡ 0 → dir ≡ slots
nil_unique [] [] l e = refl
nil_unique [] (a ∷ dir) l e = absurd (omega arith)
nil_unique (b ∷ slots) dir l e = absurd (omega arith)

module _ (magic_wire : ℕ) (hdr : Header) (dir slots : List Slot) (e : Expect)
    (given : e.slots ≡ some slots) (count : e.slot_count ≡ length slots)
    (read : length dir ≡ length slots) where
  -- Where as many slots are expected, and read of the directory, as the expectation says, a segment
  -- that passes `compare_expect` has the magic, the layout version, the number of slots, the ABI tag,
  -- the two sizes, the digest and the directory that are expected. Of its flags and its state nothing
  -- is said: the code does not compare them.
  pub compare_expect_sound :
      compare_expect magic_wire hdr (some dir) (some e) ≡ success
      → Agrees magic_wire hdr e × (dir ≡ slots)
  unfolding compare_expect
  compare_expect_sound h =
      ground (arith, compare_slots_sound slots dir read, nil_unique slots dir read, given, count)

  -- Under the same conditions a segment that has these fields and the directory as they are expected
  -- passes `compare_expect`, whatever its flags and its state.
  pub compare_expect_complete :
      Agrees magic_wire hdr e
      → dir ≡ slots
      → compare_expect magic_wire hdr (some dir) (some e) ≡ success
  unfolding compare_expect
  compare_expect_complete a h = ground (
    arith,
    compare_slots_self slots,
    given,
    count,
    h,
    a.magic,
    a.layout_version,
    a.slot_count,
    a.abi_tag,
    a.total_size,
    a.directory_bytes,
    a.layout_digest,
  )
