-- ===== src/Queue/Ring.antt =====
-- The ring's invariant and the list of its items, oldest first.
use native.Mathlib.Nat.{mod-add-mod, mod-eq_of_lt, mod-eq-sub-mod, mul-le-mul_left, mul-suc}
use mathlib.Core.Path.{ap₂}
use posixipc.Prelude.{
  ℕ, zero, suc, ◌+◌, ◌-◌, ◌*◌, ◌%◌, ◌≤◌, ◌<◌, ◌≡◌, ◌≢◌, refl, ap, ◌∙◌, arith, ◌⊎◌, inl, inr, List,
  [], ◌∷◌, ◌++◌, length, get_or, lt-cases,
}
use posixipc.Word.{u32_max}
use posixipc.Queue.{View, Memory, empty, ready, read_bytes, write_bytes}

-- The `k`-th slot after the head.
abbrev pub slot_at : ℕ → ℕ → ℕ → ℕ
slot_at depth head k = (head + k) % depth

pub slot_at-cases :
    (d h k : ℕ)
    → h < d
    → k ≤ d
    → ((h + k < d) × (slot_at d h k ≡ h + k)) ⊎ ((d ≤ h + k) × (slot_at d h k ≡ h + k - d))
slot_at-cases d h k p q = elim (lt-cases (h + k) d) [
  | inl r ↦ inl (r, mod-eq_of_lt r)
  | inr r ↦ inr (r, mod-eq-sub-mod {n = h + k} {m = d} r ∙ mod-eq_of_lt (omega arith))
]

pub slot_at-lt : (d h k : ℕ) → h < d → k ≤ d → slot_at d h k < d
slot_at-lt d h k p q = omega (arith, slot_at-cases d h k p q)

-- Two slots less than a round apart differ.
pub slot_at-ne : (d h j k : ℕ) → h < d → j < d → k < d → j ≢ k → slot_at d h j ≢ slot_at d h k
slot_at-ne d h j k p q r ne =
    omega (arith, slot_at-cases d h j p (omega arith), slot_at-cases d h k p (omega arith))

pub slot_at-next : (d h k : ℕ) → slot_at d ((h + 1) % d) k ≡ slot_at d h (k + 1)
slot_at-next d h k = rw mod-add-mod (ap (λ (t : ℕ). t % d) (omega arith))

pub slot_at-suc : (d h k : ℕ) → (slot_at d h k + 1) % d ≡ slot_at d h (k + 1)
slot_at-suc d h k = rw mod-add-mod (ap (λ (t : ℕ). t % d) (omega arith))

module _ {ℓ} {A : Type ℓ} (d : ℕ) where
  -- the items of the slots `k` to `k + n` after the head
  abbrev pub window : (ℕ → A) → ℕ → ℕ → ℕ → List A
  window item h k zero = []
  window item h k (suc n) = item (slot_at d h k) ∷ window item h (k + 1) n

  pub length-window : (item : ℕ → A) (h k n : ℕ) → length (window item h k n) ≡ n
  length-window item h k zero = refl
  length-window item h k (suc n) = ap suc (length-window item h (k + 1) n)

  pub window-ext :
      (f g : ℕ → A) (h k n : ℕ)
      → ((j : ℕ) → k ≤ j → j < k + n → f (slot_at d h j) ≡ g (slot_at d h j))
      → window f h k n ≡ window g h k n
  window-ext f g h k zero e = refl
  window-ext f g h k (suc n) e = rw (
    e k (omega arith) (omega arith),
    window-ext f g h (k + 1) n (λ j p q. e j (omega arith) (omega arith)),
  )

  pub window-snoc :
      (item : ℕ → A) (h k n : ℕ)
      → window item h k (suc n) ≡ window item h k n ++ item (slot_at d h (k + n)) ∷ []
  window-snoc item h k zero = ap (λ (t : ℕ). item (slot_at d h t) ∷ []) (omega arith)
  window-snoc item h k (suc n) = ap (◌∷◌ (item (slot_at d h k))) (
      window-snoc item h (k + 1) n
      ∙ ap (λ (t : ℕ). window item h (k + 1) n ++ item (slot_at d h t) ∷ []) (omega arith))

  pub window-next :
      (item : ℕ → A) (h k n : ℕ) → window item ((h + 1) % d) k n ≡ window item h (k + 1) n
  window-next item h k zero = refl
  window-next item h k (suc n) = rw (slot_at-next d h k, window-next item h (k + 1) n)

  -- one slot further on, from one slot further back
  pub window-shift : (item : ℕ → A) (h k n : ℕ) → window item (h + 1) k n ≡ window item h (k + 1) n
  window-shift item h k zero = refl
  window-shift item h k (suc n) =
      ap₂ ◌∷◌ (ap (λ (t : ℕ). item (t % d)) (omega arith)) (window-shift item h (k + 1) n)

pub read_bytes-ext :
    (f g : ℕ → ℕ) (off n : ℕ)
    → ((a : ℕ) → off ≤ a → a < off + n → f a ≡ g a)
    → read_bytes f off n ≡ read_bytes g off n
unfolding read_bytes
read_bytes-ext f g off zero e = refl
read_bytes-ext f g off (suc n) e = rw (
  e off (omega arith) (omega arith),
  read_bytes-ext f g (off + 1) n (λ a p q. e a (omega arith) (omega arith)),
)

read_bytes_list :
    (f : ℕ → ℕ) (off : ℕ) (bytes : List ℕ)
    → ((i : ℕ) → i < length bytes → f (off + i) ≡ get_or bytes i 0)
    → read_bytes f off (length bytes) ≡ bytes
unfolding read_bytes
read_bytes_list f off [] e = refl
read_bytes_list f off (x ∷ xs) e = rw (here, read_bytes_list f (off + 1) xs there)
  where
    here : f off ≡ x
    here = ap f (omega arith) ∙ e 0 (omega arith)

    there : (i : ℕ) → i < length xs → f (off + 1 + i) ≡ get_or xs i 0
    there i p = ap f (omega arith) ∙ e (suc i) (omega arith)

-- What was written is read back, and what does not meet it is untouched.
pub read_bytes-write_bytes :
    (mem : ℕ → ℕ) (off : ℕ) (bytes : List ℕ)
    → read_bytes (write_bytes mem off (length bytes) bytes) off (length bytes) ≡ bytes
unfolding write_bytes
read_bytes-write_bytes mem off bytes =
    read_bytes_list _ off bytes λ i p. ground (arith, ap (λ (t : ℕ). get_or bytes t 0) (offset i))
  where
    offset : (i : ℕ) → off + i - off ≡ i
    offset i = omega arith

pub read_bytes-write_bytes_apart :
    (mem : ℕ → ℕ) (off n off' n' : ℕ) (bytes : List ℕ)
    → (off + n ≤ off') ⊎ (off' + n' ≤ off)
    → read_bytes (write_bytes mem off n bytes) off' n' ≡ read_bytes mem off' n'
unfolding write_bytes
read_bytes-write_bytes_apart mem off n off' n' bytes apart =
    read_bytes-ext _ mem off' n' λ a p q. ground arith

slot_before : (i j size stride : ℕ) → i < j → size ≤ stride → i * stride + size ≤ j * stride
slot_before i j size stride p q =
    omega (arith, mul-le-mul_left {m = suc i} {n = j} stride p, mul-suc stride i)

-- Slots of different index do not overlap.
pub slots_apart :
    (i j size stride : ℕ)
    → i ≢ j
    → size ≤ stride
    → (i * stride + size ≤ j * stride) ⊎ (j * stride + size ≤ i * stride)
slots_apart i j size stride ne h = elim (lt-cases i j) [
  | inl p ↦ inl (slot_before i j size stride p h)
  | inr p ↦ inr (slot_before j i size stride (omega arith) h)
]

-- the item of slot `i`
abbrev pub item_at : View → Memory → ℕ → List ℕ
item_at v m i = read_bytes m.payload (i * v.stride) v.item_size

abbrev pub contents : View → Memory → List (List ℕ)
contents v m = window v.depth (item_at v m) m.ctrl.head 0 m.ctrl.count

-- A mapped view: pointers that are not NULL, a ring whose indices cannot wrap, an item in each slot.
pub record IsView (v : View) : Type 0 where
  pub ctrl : v.ctrl ≢ 0
  pub state : v.state ≢ 0
  pub depth_pos : 0 < v.depth
  pub depth_word : 2 * v.depth ≤ u32_max
  pub item_in_slot : v.item_size ≤ v.stride

-- The `count` slots from the head on are READY, all others EMPTY.
pub record IsRing (v : View) (m : Memory) : Type 0 where
  pub head_in : m.ctrl.head < v.depth
  pub count_in : m.ctrl.count ≤ v.depth
  pub tail_at : m.ctrl.tail ≡ slot_at v.depth m.ctrl.head m.ctrl.count
  pub held : (k : ℕ) → k < m.ctrl.count → m.state (slot_at v.depth m.ctrl.head k) ≡ ready
  pub free :
      (k : ℕ) → m.ctrl.count ≤ k → k < v.depth → m.state (slot_at v.depth m.ctrl.head k) ≡ empty
