-- ===== src/Queue/System/Invariant.antt =====
-- The invariant of the processes that share a ring.
use posixipc.Prelude.{
  true, Option, ℕ, zero, suc, ◌<◌, ◌≡◌, refl, sym, ap, ◌∙◌, arith, List, [], ◌∷◌, ◌++◌, some, take,
  length, leb, if◌then◌else◌,
}
use posixipc.Queue.{
  View, Memory, put, get, put_store, get_store, put_stores, run_put, get_stores, run_get,
}
use posixipc.Queue.Ring.{item_at, contents, IsView, IsRing}
use posixipc.Codes.{success}
use posixipc.Queue.Put.{put_done, put_runs, put_done-IsRing, put_done-contents, tail-lt}
use posixipc.Queue.Get.{get_done, head_slot, get_runs, get_done-IsRing, get_done-contents}
use posixipc.Queue.Crash.{RecoversTo, keeps, crash_put}
use posixipc.Queue.Crash.Getting.{crash_get}
use posixipc.Queue.System.{
  Owner, Lock, System, put_at, get_at, without_first, items_put, items_got, Flat, Step, DiesFlat,
}

-- A put that has made `k` of its stores to a ring with room.
pub record IsPutting (v : View) (bytes : List ℕ) (found : Memory) (k : ℕ) (m : Memory)
    (q : List (List ℕ)) : Type 0 where
  pub ring : IsRing v found
  pub room : found.ctrl.count < v.depth
  pub size : length bytes ≡ v.item_size
  pub made : m ≡ run_put v found.ctrl.tail bytes (take k put_stores) found
  pub stands : q ≡ (if leb 3 k then contents v found ++ bytes ∷ [] else contents v found)

-- A get that has made `k` of its stores to a ring with an item.
pub record IsGetting (v : View) (found : Memory) (k : ℕ) (m : Memory) (q : List (List ℕ))
    : Type 0 where
  pub ring : IsRing v found
  pub some_held : 0 < found.ctrl.count
  pub made : m ≡ run_get v found.ctrl.head (take k get_stores) found
  pub stands : q ≡ (if leb 2 k then without_first (contents v found) else contents v found)

-- The memory by the lock: a ring of the items, a put or a get part of the way, or what recovery makes
-- a ring of the items of.
abbrev pub Holds : View → Lock → Memory → List (List ℕ) → Type 0
Holds v Lock.free m q = IsRing v m × (contents v m ≡ q)
Holds v (Lock.owned Owner.idle) m q = IsRing v m × (contents v m ≡ q)
Holds v (Lock.owned (Owner.putting bytes found k)) m q = IsPutting v bytes found k m q
Holds v (Lock.owned (Owner.getting found k)) m q = IsGetting v found k m q
Holds v Lock.left m q = RecoversTo v m q

module _ {v : View} {bytes : List ℕ} {found : Memory} where
  IsPutting-next :
      {m : Memory} {k : ℕ} {q : List (List ℕ)} (m' : Memory) (j : ℕ) (q' : List (List ℕ))
      → IsPutting v bytes found k m q
      → m' ≡ run_put v found.ctrl.tail bytes (take j put_stores) found
      → q' ≡ (if leb 3 j then contents v found ++ bytes ∷ [] else contents v found)
      → IsPutting v bytes found j m' q'
  IsPutting-next m' j q' p made stands = record {
    ring = p.ring;
    room = p.room;
    size = p.size;
    made = made;
    stands = stands;
  }

  IsPutting-stores :
      (m : Memory) (k : ℕ) (q : List (List ℕ))
      → k < 5
      → IsPutting v bytes found k m q
      → IsPutting v bytes found
          (suc k)
          (put_store v found.ctrl.tail bytes (put_at k) m)
          (items_put k bytes q)
  unfolding run_put put_at
  IsPutting-stores m zero q h p =
      IsPutting-next _ 1 _ p (ap (put_store v found.ctrl.tail bytes (put_at 0)) p.made) p.stands
  IsPutting-stores m (suc zero) q h p =
      IsPutting-next _ 2 _ p (ap (put_store v found.ctrl.tail bytes (put_at 1)) p.made) p.stands
  IsPutting-stores m (suc (suc zero)) q h p =
      IsPutting-next _ 3 _ p (ap (put_store v found.ctrl.tail bytes (put_at 2)) p.made)
        (ap (λ (t : List (List ℕ)). t ++ bytes ∷ []) p.stands)
  IsPutting-stores m (suc (suc (suc zero))) q h p =
      IsPutting-next _ 4 _ p (ap (put_store v found.ctrl.tail bytes (put_at 3)) p.made) p.stands
  IsPutting-stores m (suc (suc (suc (suc zero)))) q h p =
      IsPutting-next _ 5 _ p (ap (put_store v found.ctrl.tail bytes (put_at 4)) p.made) p.stands
  IsPutting-stores m (suc (suc (suc (suc (suc k))))) q h p = absurd (omega arith)

module _ {v : View} {found : Memory} where
  IsGetting-next :
      {m : Memory} {k : ℕ} {q : List (List ℕ)} (m' : Memory) (j : ℕ) (q' : List (List ℕ))
      → IsGetting v found k m q
      → m' ≡ run_get v found.ctrl.head (take j get_stores) found
      → q' ≡ (if leb 2 j then without_first (contents v found) else contents v found)
      → IsGetting v found j m' q'
  IsGetting-next m' j q' p made stands = record {
    ring = p.ring;
    some_held = p.some_held;
    made = made;
    stands = stands;
  }

  IsGetting-stores :
      (m : Memory) (k : ℕ) (q : List (List ℕ))
      → k < 4
      → IsGetting v found k m q
      → IsGetting v found (suc k) (get_store v found.ctrl.head (get_at k) m) (items_got k q)
  unfolding run_get get_at
  IsGetting-stores m zero q h p =
      IsGetting-next _ 1 _ p (ap (get_store v found.ctrl.head (get_at 0)) p.made) p.stands
  IsGetting-stores m (suc zero) q h p =
      IsGetting-next _ 2 _ p (ap (get_store v found.ctrl.head (get_at 1)) p.made)
        (ap without_first p.stands)
  IsGetting-stores m (suc (suc zero)) q h p =
      IsGetting-next _ 3 _ p (ap (get_store v found.ctrl.head (get_at 2)) p.made) p.stands
  IsGetting-stores m (suc (suc (suc zero))) q h p =
      IsGetting-next _ 4 _ p (ap (get_store v found.ctrl.head (get_at 3)) p.made) p.stands
  IsGetting-stores m (suc (suc (suc (suc k)))) q h p = absurd (omega arith)

module _ {v : View} (w : IsView v) where
  put-stores :
      (bytes : List ℕ) (m : Memory)
      → IsRing v m
      → m.ctrl.count < v.depth
      → put (some v) (some bytes) m ≡ (success, run_put v m.ctrl.tail bytes put_stores m)
  unfolding put
  put-stores bytes m r room = ground (arith, w.ctrl, tail-lt w r)

  putting-ends :
      (bytes : List ℕ) (found m : Memory) (q : List (List ℕ))
      → IsPutting v bytes found 5 m q
      → IsRing v m × (contents v m ≡ q)
  putting-ends bytes found m q p =
      let same : run_put v found.ctrl.tail bytes put_stores found ≡ put_done v found bytes =
        ap (λ (r : ℕ × Memory). r.1)
          (sym (put-stores bytes found p.ring p.room) ∙ put_runs w p.ring bytes p.room) in
      rw (p.made, p.stands, same)
        (put_done-IsRing w p.ring bytes p.room, put_done-contents w p.ring bytes p.room p.size)

  putting-dies :
      (bytes : List ℕ) (found m : Memory) (k : ℕ) (q : List (List ℕ))
      → Flat v found
      → IsPutting v bytes found k m q
      → RecoversTo v m q
  putting-dies bytes found m k q flat p =
      rw (p.made, p.stands) (crash_put w p.ring flat bytes p.size k)

  get-stores :
      (m : Memory)
      → IsRing v m
      → 0 < m.ctrl.count
      → (get (some v) true m).2 ≡ run_get v m.ctrl.head get_stores m
  unfolding get
  get-stores m r some_held =
      ground (arith, w.ctrl, r.head_in, head_slot w r, ap m.state (head_slot w r), r.held 0)

  getting-ends :
      (found m : Memory) (q : List (List ℕ))
      → IsGetting v found 4 m q
      → IsRing v m × (contents v m ≡ q)
  getting-ends found m q p =
      let same : run_get v found.ctrl.head get_stores found ≡ get_done v found =
        sym (get-stores found p.ring p.some_held)
        ∙ ap (λ (r : ℕ × Option (List ℕ) × Memory). r.2) (get_runs w p.ring p.some_held) in
      rw (p.made, p.stands, same)
        (
          get_done-IsRing w p.ring p.some_held,
          sym (ap without_first (get_done-contents w p.ring p.some_held)),
        )

  getting-dies :
      (found m : Memory) (k : ℕ) (q : List (List ℕ))
      → Flat v found
      → IsGetting v found k m q
      → RecoversTo v m q
  getting-dies found m k q flat p =
      let held = get_done-contents w p.ring p.some_held in
      rw (p.made, p.stands, held)
        (crash_get w p.ring (omega arith) (item_at v found found.ctrl.head)
          (contents v (get_done v found)) p.some_held held k)

  -- A step of any process keeps the invariant, where a death is one on a ring that does not go round.
  pub Step-Holds :
      {s t : System} (st : Step v s t)
      → DiesFlat st
      → Holds v s.lock s.mem s.items
      → Holds v t.lock t.mem t.items
  unfolding run_put run_get
  Step-Holds Step.lock _ h = h
  Step-Holds Step.unlock _ h = h
  Step-Holds (Step.start_put bytes size room) _ (ring, items) = record {
    ring = ring;
    room = room;
    size = size;
    made = refl;
    stands = sym items;
  }
  Step-Holds (Step.start_get some_held) _ (ring, items) = record {
    ring = ring;
    some_held = some_held;
    made = refl;
    stands = sym items;
  }
  Step-Holds (Step.store_put {m} {k} {q} h) _ p = IsPutting-stores m k q h p
  Step-Holds (Step.store_get {m} {k} {q} h) _ p = IsGetting-stores m k q h p
  Step-Holds (Step.end_put {m} {q}) _ p = putting-ends _ _ m q p
  Step-Holds (Step.end_get {m} {q}) _ p = getting-ends _ m q p
  Step-Holds (Step.die_idle {m} {q}) flat (ring, items) =
      rw (← items) (keeps w ring flat m (λ j h. refl) refl)
  Step-Holds (Step.die_putting {m} {k} {q}) flat p = putting-dies _ _ m k q flat p
  Step-Holds (Step.die_getting {m} {k} {q}) flat p = getting-dies _ m k q flat p
  Step-Holds Step.take_over _ (ok, ring, items) = (ring, items)
