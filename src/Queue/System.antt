-- ===== src/Queue/System.antt =====
-- Processes that share a ring of src/core/posixipc_queue.c under its robust put lock, as
-- src/bindings/py_queue.c takes it: the owner makes the stores of a put or a get one at a time, may
-- die between two of them, and the next owner then runs `posixipc_queue_recover` before anything
-- else. Recovery is one step.
pub mod Invariant
use posixipc.Prelude.{
  ℕ, zero, suc, ◌+◌, ◌≤◌, ◌<◌, ◌≡◌, List, [], ◌∷◌, ◌++◌, some, length, ◌==◌, if◌then◌else◌,
}
use posixipc.Queue.{
  View, Memory, PutStore, GetStore, put_store, get_store, recover, reserve, copy, publish,
  advance_tail, add_count, claim, release, advance_head, sub_count,
}

-- What the owner does: nothing, or a put or a get, with the memory as it found it and the number of
-- stores that it has made.
pub data Owner : Type 0 where
  idle : Owner
  putting : List ℕ → Memory → ℕ → Owner
  getting : Memory → ℕ → Owner

-- the lock: free, owned, or left by an owner that died
pub data Lock : Type 0 where
  free : Lock
  owned : Owner → Lock
  left : Lock

pub record System : Type 0 where
  pub lock : Lock
  pub mem : Memory
  -- the items that were put and not got, the oldest first
  pub items : List (List ℕ)

-- the store that comes after `k`
pub put_at : ℕ → PutStore
put_at zero = reserve
put_at (suc zero) = copy
put_at (suc (suc zero)) = publish
put_at (suc (suc (suc zero))) = advance_tail
put_at (suc (suc (suc (suc k)))) = add_count

pub get_at : ℕ → GetStore
get_at zero = claim
get_at (suc zero) = release
get_at (suc (suc zero)) = advance_head
get_at (suc (suc (suc k))) = sub_count

abbrev pub without_first : List (List ℕ) → List (List ℕ)
without_first [] = []
without_first (x ∷ q) = q

-- The item counts as put from the store of READY on, and as got from the store of EMPTY on.
abbrev pub items_put : ℕ → List ℕ → List (List ℕ) → List (List ℕ)
items_put k bytes q = if k == 2 then q ++ bytes ∷ [] else q

abbrev pub items_got : ℕ → List (List ℕ) → List (List ℕ)
items_got k q = if k == 1 then without_first q else q

-- the items do not go round the end of the slots, and there is room
abbrev pub Flat : View → Memory → Type 0
Flat v m = m.ctrl.head + m.ctrl.count < v.depth

pub data Step (v : View) : System → System → Type 0 where
  lock :
      {m : Memory} {q : List (List ℕ)}
      → Step v
          (record { lock = free; mem = m; items = q })
          (record { lock = owned idle; mem = m; items = q })
  unlock :
      {m : Memory} {q : List (List ℕ)}
      → Step v
          (record { lock = owned idle; mem = m; items = q })
          (record { lock = free; mem = m; items = q })
  -- the tests of `posixipc_queue_put` and `posixipc_queue_get` before their first store
  start_put :
      {m : Memory} {q : List (List ℕ)}
      → (bytes : List ℕ) → length bytes ≡ v.item_size
      → m.ctrl.count < v.depth
      → Step v
          (record { lock = owned idle; mem = m; items = q })
          (record { lock = owned (putting bytes m 0); mem = m; items = q })
  start_get :
      {m : Memory} {q : List (List ℕ)}
      → 0 < m.ctrl.count
      → Step v
          (record { lock = owned idle; mem = m; items = q })
          (record { lock = owned (getting m 0); mem = m; items = q })
  store_put :
      {bytes : List ℕ} {found m : Memory} {k : ℕ} {q : List (List ℕ)}
      → k < 5
      → Step v
          (record { lock = owned (putting bytes found k); mem = m; items = q })
          (record {
            lock = owned (putting bytes found (suc k));
            mem = put_store v found.ctrl.tail bytes (put_at k) m;
            items = items_put k bytes q;
          })
  store_get :
      {found m : Memory} {k : ℕ} {q : List (List ℕ)}
      → k < 4
      → Step v
          (record { lock = owned (getting found k); mem = m; items = q })
          (record {
            lock = owned (getting found (suc k));
            mem = get_store v found.ctrl.head (get_at k) m;
            items = items_got k q;
          })
  end_put :
      {bytes : List ℕ} {found m : Memory} {q : List (List ℕ)}
      → Step v
          (record { lock = owned (putting bytes found 5); mem = m; items = q })
          (record { lock = owned idle; mem = m; items = q })
  end_get :
      {found m : Memory} {q : List (List ℕ)}
      → Step v
          (record { lock = owned (getting found 4); mem = m; items = q })
          (record { lock = owned idle; mem = m; items = q })
  die_idle :
      {m : Memory} {q : List (List ℕ)}
      → Step v
          (record { lock = owned idle; mem = m; items = q })
          (record { lock = left; mem = m; items = q })
  die_putting :
      {bytes : List ℕ} {found m : Memory} {k : ℕ} {q : List (List ℕ)}
      → Step v
          (record { lock = owned (putting bytes found k); mem = m; items = q })
          (record { lock = left; mem = m; items = q })
  die_getting :
      {found m : Memory} {k : ℕ} {q : List (List ℕ)}
      → Step v
          (record { lock = owned (getting found k); mem = m; items = q })
          (record { lock = left; mem = m; items = q })
  take_over :
      {m : Memory} {q : List (List ℕ)}
      → Step v
          (record { lock = left; mem = m; items = q })
          (record { lock = owned idle; mem = (recover (some v) m).1; items = q })

pub data Reach (v : View) (s : System) : System → Type 0 where
  here : Reach v s s
  next : {t u : System} → Reach v s t → Step v t u → Reach v s u

-- the step is no death, or one of an owner that found a ring that does not go round, with room
abbrev pub DiesFlat : {v : View} {s t : System} → Step v s t → Type 0
DiesFlat {v} (Step.die_idle {m}) = Flat v m
DiesFlat {v} (Step.die_putting {found}) = Flat v found
DiesFlat {v} (Step.die_getting {found}) = Flat v found
DiesFlat st = Unit {0}

-- each death on the way is one of those
abbrev pub DeathsFlat : {v : View} {s t : System} → Reach v s t → Type 0
DeathsFlat Reach.here = Unit {0}
DeathsFlat (Reach.next r st) = DeathsFlat r × DiesFlat st
