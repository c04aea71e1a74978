-- ===== src/Queue/Fifo.antt =====
-- The bounded first-in-first-out queue that the ring implements, oldest item first.
use posixipc.Prelude.{ℕ, Option, none, some, List, [], ◌∷◌, ◌++◌, length, leb, if◌then◌else◌}
use posixipc.Codes.{success, eagain}

module _ {ℓ} {A : Type ℓ} where
  unfoldable pub push : ℕ → List A → A → ℕ × List A
  push cap q x = if leb cap (length q) then (eagain, q) else (success, q ++ x ∷ [])

  unfoldable pub pop : List A → ℕ × Option A × List A
  pop [] = (eagain, none, [])
  pop (x ∷ q) = (success, some x, q)

-- What a client asks of a queue, and what it sees.
pub data Op : Type 0 where
  put : List ℕ → Op
  get : Op

abbrev pub Reply : Type 0
Reply = ℕ × Option (List ℕ)

unfoldable pub run : ℕ → List (List ℕ) → List Op → List Reply
run cap q [] = []
run cap q (put x ∷ ops) = let (rc, q') = push cap q x in (rc, none) ∷ run cap q' ops
run cap q (get ∷ ops) = let (rc, out, q') = pop q in (rc, out) ∷ run cap q' ops
