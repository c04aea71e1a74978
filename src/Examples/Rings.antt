-- ===== src/Examples/Rings.antt =====
-- Rings of three slots: one with an item in slot 0, and one whose two items go round the end.
use posixipc.Prelude.{
  ℕ, ◌+◌, ◌*◌, ◌<◌, ◌≡◌, refl, arith, true, none, some, [], ◌∷◌, take, ◌==◌, if◌then◌else◌, ◌⊎◌,
  leb,
}
use posixipc.Codes.{success, einval}
use posixipc.Word.{u32_max}
use posixipc.Queue.{
  View, Memory, empty, ready, reserved_get, put, get, recover, bytes_size, map_view, run_get,
  get_stores, read_bytes, settle,
}
use posixipc.Queue.Ring.{contents, item_at, window, IsView, IsRing}
use posixipc.Queue.Fifo
use posixipc.Queue.Size.{IsCacheline, Parts, IsInside, bytes_size_lem, map_view_cases}
use posixipc.Queue.Put.{put_refines}
use posixipc.Queue.Get.{get_refines}
use posixipc.Queue.Refine.{run, run_refines}
use posixipc.Queue.Recover.{Recovered, recover_lem}
use posixipc.Queue.Recover.Contiguous.{HoldsBlock, recover-block}
use posixipc.Queue.Recover.Wrapped.{recover_wrapped}
use posixipc.Queue.Crash.{RecoversTo}
use posixipc.Queue.Crash.Getting.{crash_get}

abbrev pub three : View
three = record { ctrl = 64; state = 128; payload = 192; depth = 3; item_size = 1; stride = 64 }

pub three-IsView : IsView three
three-IsView = record {
  ctrl = omega arith;
  state = omega arith;
  depth_pos = omega arith;
  depth_word = omega arith;
  item_in_slot = omega arith;
}

-- one item, the byte 7, in slot 0
abbrev pub one : Memory
one = record {
  ctrl = record { head = 0; tail = 1; count = 1; flags = 0; depth = 3; item_size = 1 };
  state = λ i. if i == 0 then ready else empty;
  payload = λ i. 7;
}

pub one-IsRing : IsRing three one
one-IsRing = record {
  head_in = omega arith;
  count_in = omega arith;
  tail_at = refl;
  held = λ k p. ground arith;
  free = λ k p q. ground arith;
}

-- items in the slots 2 and 0, slot 1 empty
abbrev pub round : Memory
round = record {
  ctrl = record { head = 2; tail = 1; count = 2; flags = 0; depth = 3; item_size = 1 };
  state = λ i. if i == 1 then empty else ready;
  payload = λ i. i;
}

round-IsRing : IsRing three round
round-IsRing = record {
  head_in = omega arith;
  count_in = omega arith;
  tail_at = refl;
  held = λ k p. ground arith;
  free = λ k p q. ground arith;
}

run_refines_example :
    run three one (Fifo.put (9 ∷ []) ∷ Fifo.get ∷ Fifo.get ∷ Fifo.get ∷ [])
    ≡ Fifo.run 3 (contents three one) (Fifo.put (9 ∷ []) ∷ Fifo.get ∷ Fifo.get ∷ Fifo.get ∷ [])
run_refines_example =
    run_refines (Fifo.put (9 ∷ []) ∷ Fifo.get ∷ Fifo.get ∷ Fifo.get ∷ []) {v = three} {m = one}
      three-IsView one-IsRing (refl, tt)

put_refines_example :
    let (rc, m') = put (some three) (some (9 ∷ [])) one in
    ((rc, contents three m') ≡ Fifo.push 3 (contents three one) (9 ∷ [])) × IsRing three m'
put_refines_example = put_refines {v = three} {m = one} three-IsView one-IsRing (9 ∷ []) refl

get_refines_example :
    let (rc, out, m') = get (some three) true one in
    ((rc, out, contents three m') ≡ Fifo.pop (contents three one)) × IsRing three m'
get_refines_example = get_refines {v = three} {m = one} three-IsView one-IsRing

crash_get_example :
    RecoversTo three
      (run_get three 0 (take 1 get_stores) one)
      (if leb 2 1 then [] else (7 ∷ []) ∷ [])
unfolding read_bytes
crash_get_example =
    crash_get {v = three} {m = one} three-IsView one-IsRing (omega arith) (7 ∷ []) [] (omega arith)
      refl 1

recover_lem_example :
    let (rc, m') = recover (some three) round in (rc ≡ success) × Recovered three round m'
recover_lem_example = recover_lem {v = three} round three-IsView

held_block : HoldsBlock 3 1 1 (λ i. if i == 1 then reserved_get else empty)
unfolding settle
held_block = record {
  in_range = omega arith;
  inside = λ j p q. ground arith;
  below = λ j p. ground arith;
  above = λ j p q. ground arith;
}

-- a reader died in slot 1
abbrev reading : Memory
reading = record {
  ctrl = record { head = 1; tail = 2; count = 1; flags = 0; depth = 3; item_size = 1 };
  state = λ i. if i == 1 then reserved_get else empty;
  payload = λ i. 7;
}

recover-block_example :
    let (rc, m') = recover (some three) reading in
    (rc ≡ success) × IsRing three m' × (contents three m' ≡ window 3 (item_at three reading) 1 0 1)
recover-block_example = recover-block {v = three} reading 1 1 three-IsView held_block

recover_wrapped_example :
    let (rc, m') = recover (some three) round in
    (rc ≡ success) × (m'.ctrl.head ≡ 0) × ¬ IsRing three m'
recover_wrapped_example =
    recover_wrapped {v = three} {m = round} three-IsView round-IsRing (omega arith) (omega arith)

pub IsCacheline-64 : IsCacheline 64
IsCacheline-64 = record { power = (6, refl); small = omega arith }

pub Parts-3 : Parts 64 3 1 64 64 64
Parts-3 = record {
  ctrl = record { multiple = refl; above = omega arith; near = omega arith };
  states = record { multiple = refl; above = omega arith; near = omega arith };
  slot = record { multiple = refl; above = omega arith; near = omega arith };
}

bytes_size_lem_example :
    bytes_size 64 3 1 ≡ (if leb (64 + 64 + 3 * 64) u32_max then 64 + 64 + 3 * 64 else 0)
bytes_size_lem_example =
    bytes_size_lem IsCacheline-64 3 1 64 64 64 (omega arith) (omega arith) (omega arith)
      (omega arith) Parts-3

abbrev block_at : ℕ
block_at = 4096

map_view_cases_example :
    ((v : View) × (map_view 64 block_at 320 3 1 ≡ (success, some v))
      × IsInside block_at 320 v
      × IsView v
      × (v.depth ≡ 3)
      × (v.item_size ≡ 1))
    ⊎ ((map_view 64 block_at 320 3 1 ≡ (einval, none))
        × ((block_at ≡ 0) ⊎ (320 < 64 + 64 + 3 * 64)))
map_view_cases_example =
    map_view_cases IsCacheline-64 block_at 320 3 1 64 64 64 (omega arith) (omega arith)
      (omega arith) (omega arith) (omega arith) Parts-3
