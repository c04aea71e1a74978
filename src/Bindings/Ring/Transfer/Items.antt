-- ===== src/Bindings/Ring/Transfer/Items.antt =====
-- What a put and a get of src/bindings/py_queue.c leave in the ring.
use posixipc.Prelude.{
  ℕ, ◌≡◌, ◌∙◌, arith, ◌⊎◌, inl, inr, refl, Bool, true, false, not, Option, none, some, List,
  is_null, length, ltb, ◌!=◌,
}
use posixipc.Os.{Os}
use posixipc.Queue.Ring.{contents}
use posixipc.Queue.Put.{put_done}
use posixipc.Queue.Get.{get_done}
use posixipc.Bindings.Errors.{Raised, Outcome, returned, raised}
use posixipc.Bindings.Run.{After, Triple, Triple-if, give}
use posixipc.Bindings.Acquire.{Opts}
use posixipc.Bindings.Exchange.Items.{Stored, Taken, put-Stored, get-Taken}
use posixipc.Bindings.Ring.{QueueObject, Env, State, queue_check_open, queue_lock}
use posixipc.Bindings.Ring.Laws.{Honest, Left, Own, owes, owes-unlocked}
use posixipc.Bindings.Ring.Transfer.{ring_loop, put_last, queue_put, get_last, queue_get}
use posixipc.Bindings.Ring.Transfer.Laws.{ring-Guards}
use posixipc.Bindings.Exchange.{when_locked}
use posixipc.Bindings.Exchange.Laws.{when_open-Triple, when_locked-Triple, loop-Triple}

module _ (q : QueueObject) (k : ℕ) where
  abbrev pub PutEnd : List ℕ → Outcome Bool → State → Type 0
  PutEnd bytes (returned true) (w, tr) = (owes w.mutexes ≡ k) × Stored q.view bytes w.found w.mem
  PutEnd bytes (returned false) s = Left q k s
  PutEnd bytes (raised e) s = Left q k s

  -- the oldest item taken
  abbrev pub Took : List ℕ → State → Type 0
  Took bytes (w, tr) = (owes w.mutexes ≡ k) × Taken q.view bytes w.found w.mem

  -- Behind a get; the first argument says that Python has the memory for the object of the bytes.
  -- Without it, a get that has taken the oldest item raises, and the item is lost.
  abbrev pub GetEnd : Bool → Outcome (Option (List ℕ)) → State → Type 0
  GetEnd makes (returned (some bytes)) s = (makes ≡ true) × Took bytes s
  GetEnd makes (returned none) s = Left q k s
  GetEnd true (raised e) s = Left q k s
  GetEnd false (raised e) s =
      Left q k s ⊎ ((e ≡ some Raised.no_memory) × ((bytes : List ℕ) × Took bytes s))

  raised-GetEnd :
      (makes : Bool) (e : Option Raised) (s : State) → Left q k s → GetEnd makes (raised e) s
  raised-GetEnd true e s left = left
  raised-GetEnd false e s left = inl left

is_bound : (q : QueueObject) → queue_check_open q ≡ none → is_null q.put_lock ≡ false
unfolding queue_check_open
is_bound q checked = ground arith

module _ {os : Os} {env : Env} {q : QueueObject} (honest : Honest os env q) (k : ℕ) where
  module _ (bound : is_null q.put_lock ≡ false) where
    put_last-Triple :
        (bytes : List ℕ)
        → length bytes ≡ q.item_size
        → Triple
            (λ s. Own q k s × (ltb (length (contents q.view s.0.mem)) q.depth ≡ true))
            (put_last os env q bytes)
            (PutEnd q k bytes)
    unfolding put_last
    put_last-Triple bytes size (w, tr) ((owed, ring, from), room) =
        let (runs, stored) =
          put-Stored honest.view ring from bytes (size ∙ honest.item_size)
            (ground (arith, honest.depth)) in
        rw runs (
          owes-unlocked honest bound k (record w { mem = put_done q.view w.mem bytes }, tr) owed,
          stored,
        )

    get_last-Triple :
        (makes : Bool)
        → Triple
            (λ s. Own q k s × (ltb 0 (length (contents q.view s.0.mem)) ≡ true))
            (get_last os env q makes)
            (GetEnd q k makes)
    unfolding get_last
    get_last-Triple true (w, tr) ((owed, ring, from), some_held) =
        let (runs, taken) = get-Taken honest.view ring from some_held in
        let left = record w { mem = get_done q.view w.mem } in
        rw runs (refl, (owes-unlocked honest bound k (left, tr) owed, taken))
    get_last-Triple false (w, tr) ((owed, ring, from), some_held) =
        let (runs, taken) = get-Taken honest.view ring from some_held in
        let left = record w { mem = get_done q.view w.mem } in
        rw runs (inr (refl, (_, (owes-unlocked honest bound k (left, tr) owed, taken))))

  -- A put that returns True has put its item behind those of the ring, the ring that it found or
  -- recovered; one that returns False or raises has put nothing. The lock is given back on every
  -- path. It is assumed that the other processes leave a ring, or after a death what recovery makes
  -- one, and that no clock fails with EOWNERDEAD.
  pub queue_put_lem :
      (fuel : ℕ) (opts : Opts) (bytes : List ℕ) (s : State)
      → Left q k s
      → After (PutEnd q k bytes) (queue_put os env q fuel opts bytes s)
  unfolding queue_put
  queue_put_lem fuel opts bytes =
      let Post = PutEnd q k bytes in
      let on_raised = λ (e : Option Raised) (s : State) (left : Left q k s). left in
      let ready = λ (n : ℕ). ltb n q.depth in
      let last = put_last os env q bytes in
      let rest = ring_loop os env q fuel q.not_full opts ready false last in
      when_open-Triple {Left = Left q k} Post on_raised (queue_check_open q) _ (λ checked.
        let bound = is_bound q checked in
        let g = ring-Guards honest bound k q.not_full opts in
        Triple-if {P = Left q k} Post (length bytes != q.item_size)
          (give (raised (some Raised.value_error))) (when_locked (queue_lock os env q) rest)
          (λ e s left. left)
          (λ e. when_locked-Triple g Post on_raised rest (
            loop-Triple g Post on_raised false (λ s left. left) opts ready last
              (put_last-Triple bound bytes (ground arith)) fuel)))

  -- A get that returns bytes has taken the oldest item out of the ring, and they are that item; one
  -- that returns None has taken nothing, and so has one that raises, except where Python has no memory
  -- for the object of the bytes: then a get may have taken the oldest item and raises MemoryError. The
  -- lock is given back on every path. What is assumed is what is of a put.
  pub queue_get_lem :
      (fuel : ℕ) (opts : Opts) (memory makes_bytes : Bool) (s : State)
      → Left q k s
      → After (GetEnd q k makes_bytes) (queue_get os env q fuel opts memory makes_bytes s)
  unfolding queue_get
  queue_get_lem fuel opts memory makes_bytes =
      let Post = GetEnd q k makes_bytes in
      let on_raised = raised-GetEnd q k makes_bytes in
      let ready = λ (n : ℕ). ltb 0 n in
      let last = get_last os env q makes_bytes in
      let rest = ring_loop os env q fuel q.not_empty opts ready none last in
      when_open-Triple {Left = Left q k} Post on_raised (queue_check_open q) _ (λ checked.
        let bound = is_bound q checked in
        let g = ring-Guards honest bound k q.not_empty opts in
        Triple-if {P = Left q k} Post (not memory) (give (raised (some Raised.no_memory)))
          (when_locked (queue_lock os env q) rest)
          (λ e s left. on_raised (some Raised.no_memory) s left)
          (λ e. when_locked-Triple g Post on_raised rest (
            loop-Triple g Post on_raised none (λ s left. left) opts ready last
              (get_last-Triple bound makes_bytes) fuel)))
