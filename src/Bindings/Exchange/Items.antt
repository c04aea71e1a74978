-- ===== src/Bindings/Exchange/Items.antt =====
-- What a put and a get of src/bindings leave in a ring that they took the lock of.
use posixipc.Prelude.{ℕ, ◌≡◌, ◌<◌, arith, true, some, List, [], ◌∷◌, ◌++◌, length, ltb, ◌⊎◌}
use posixipc.Codes.{success}
use posixipc.Queue.{View, Memory, recover, put, get}
use posixipc.Queue.Ring.{IsView, IsRing, contents, item_at, length-window}
use posixipc.Queue.Put.{put_done, put_runs, put_done-IsRing, put_done-contents}
use posixipc.Queue.Get.{get_done, get_runs, get_done-IsRing, get_done-contents}

-- this process has stored nothing since it found the memory, but that it may have recovered the ring
abbrev pub Untouched : View → Memory → Memory → Type 0
Untouched v found mem = (mem ≡ found) ⊎ (mem ≡ (recover (some v) found).1)

abbrev pub Recovers : View → Memory → Type 0
Recovers v m = let (rc, m') = recover (some v) m in (rc ≡ success) × IsRing v m'

-- With one item more than the ring that this process found, or recovered, and took the lock of; or
-- with one less.
pub record Stored (v : View) (bytes : List ℕ) (found mem : Memory) : Type 0 where
  pub before : Memory
  pub from : Untouched v found before
  pub was : IsRing v before
  pub ring : IsRing v mem
  pub items : contents v mem ≡ contents v before ++ bytes ∷ []

pub record Taken (v : View) (bytes : List ℕ) (found mem : Memory) : Type 0 where
  pub before : Memory
  pub from : Untouched v found before
  pub was : IsRing v before
  pub ring : IsRing v mem
  pub items : contents v before ≡ bytes ∷ contents v mem

module _ {v : View} (view : IsView v) {found mem : Memory} (ring : IsRing v mem)
    (from : Untouched v found mem) where
  counted : length (contents v mem) ≡ mem.ctrl.count
  counted = length-window v.depth (item_at v mem) mem.ctrl.head 0 mem.ctrl.count

  pub put-Stored :
      (bytes : List ℕ)
      → length bytes ≡ v.item_size
      → ltb (length (contents v mem)) v.depth ≡ true
      → (put (some v) (some bytes) mem ≡ (success, put_done v mem bytes))
        × Stored v bytes found (put_done v mem bytes)
  put-Stored bytes size room =
      let free : mem.ctrl.count < v.depth = ground (arith, counted) in
      (
        put_runs view ring bytes free,
        record {
          before = mem;
          from = from;
          was = ring;
          ring = put_done-IsRing view ring bytes free;
          items = put_done-contents view ring bytes free size;
        },
      )

  pub get-Taken :
      ltb 0 (length (contents v mem)) ≡ true
      → (get (some v) true mem ≡ (success, some (item_at v mem mem.ctrl.head), get_done v mem))
        × Taken v (item_at v mem mem.ctrl.head) found (get_done v mem)
  get-Taken some_held =
      let held : 0 < mem.ctrl.count = ground (arith, counted) in
      (
        get_runs view ring held,
        record {
          before = mem;
          from = from;
          was = ring;
          ring = get_done-IsRing view ring held;
          items = get_done-contents view ring held;
        },
      )
