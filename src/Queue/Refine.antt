-- ===== src/Queue/Refine.antt =====
-- A ring behaves as the bounded queue of its items: sequences of posixipc_queue_put and _get, and
-- posixipc_queue_qsize.
use posixipc.Prelude.{ℕ, ◌≡◌, refl, arith, none, some, true, List, [], ◌∷◌, length}
use posixipc.Codes.{success}
use posixipc.Queue.{View, Memory, put, get, qsize}
use posixipc.Queue.Ring.{length-window, item_at, contents, IsView, IsRing}
use posixipc.Queue.Fifo
use posixipc.Queue.Put.{put_refines}
use posixipc.Queue.Get.{get_refines}

-- a client's calls in order, with what each returns
pub run : View → Memory → List Fifo.Op → List Fifo.Reply
run v m [] = []
run v m (Fifo.put x ∷ ops) = let (rc, m') = put (some v) (some x) m in (rc, none) ∷ run v m' ops
run v m (Fifo.get ∷ ops) = let (rc, out, m') = get (some v) true m in (rc, out) ∷ run v m' ops

-- each item that is put has the size of the ring's items
abbrev pub IsSized : ℕ → List Fifo.Op → Type 0
IsSized size [] = Unit {0}
IsSized size (Fifo.put x ∷ ops) = (length x ≡ size) × IsSized size ops
IsSized size (Fifo.get ∷ ops) = IsSized size ops

-- No sequence of calls tells a ring from the bounded queue of its items.
pub run_refines :
    (ops : List Fifo.Op) {v : View} {m : Memory}
    → IsView v
    → IsRing v m
    → IsSized v.item_size ops
    → run v m ops ≡ Fifo.run v.depth (contents v m) ops
unfolding run Fifo.run
run_refines [] w r s = refl
run_refines (Fifo.put x ∷ ops) {v} {m} w r s =
    let done = put_refines w r x s.0 in rw (run_refines ops w done.1 s.1, ← done.0)
run_refines (Fifo.get ∷ ops) {v} {m} w r s =
    let done = get_refines w r in rw (run_refines ops w done.1 s, ← done.0)

-- `posixipc_queue_qsize` reports the number of items.
pub qsize_lem :
    {v : View} (m : Memory) → IsView v → qsize (some v) m ≡ (success, some (length (contents v m)))
unfolding qsize
qsize_lem {v} m w =
    rw (length-window v.depth (item_at v m) m.ctrl.head 0 m.ctrl.count) (ground (arith, w.ctrl))
