-- ===== src/Bindings/FutexRing/Transfer/Items.antt =====
-- What put and get of the futex queue of src/bindings/py_linux.c do to the ring.
use posixipc.Prelude.{
  ℕ, ◌≡◌, ap, ◌∙◌, arith, Bool, true, false, not, Option, none, some, List, is_null, length, ltb,
  inl, ◌!=◌,
}
use posixipc.Os.{Os}
use posixipc.Queue.{Memory}
use posixipc.Queue.Ring.{contents}
use posixipc.Queue.Refine.{qsize_lem}
use posixipc.Queue.Put.{put_done}
use posixipc.Queue.Get.{get_done}
use posixipc.Bindings.Errors.{Raised, Outcome, returned, raised}
use posixipc.Bindings.Run.{After, Triple, Triple-if, give}
use posixipc.Bindings.Acquire.{Opts}
use posixipc.Bindings.Lock.Laws.{holds}
use posixipc.Bindings.Exchange.{when_locked}
use posixipc.Bindings.Exchange.Items.{Stored, Taken, put-Stored, get-Taken}
use posixipc.Bindings.Exchange.Laws.{Guards, when_open-Triple, when_locked-Triple, loop-Triple}
use posixipc.Bindings.FutexRing.{
  FutexQueueObject, World, Env, State, Word, add_one, unlock, fq_lock, fq_wait_word, fq_check_open,
}
use posixipc.Bindings.FutexRing.Transfer.{count, fq_loop, fq_put_last, fq_put, fq_get_last, fq_get}
use posixipc.Bindings.FutexRing.Laws.{
  Honest, Left, Held, Own, unlock-Left, holds-unlocked, fq_lock-Triple,
}
use posixipc.Bindings.FutexRing.Waiting.{fq_wait_word-Triple}

module _ (q : FutexQueueObject) where
  abbrev pub PutEnd : List ℕ → Outcome Bool → State → Type 0
  PutEnd bytes (returned true) (w, tr) =
      (holds w.mutexes ≡ 0) × Stored q.view.view bytes w.found w.mem.ring
  PutEnd bytes (returned false) s = Left q s
  PutEnd bytes (raised e) s = Left q s

  abbrev pub GetEnd : Outcome (Option (List ℕ)) → State → Type 0
  GetEnd (returned (some bytes)) (w, tr) =
      (holds w.mutexes ≡ 0) × Taken q.view.view bytes w.found w.mem.ring
  GetEnd (returned none) s = Left q s
  GetEnd (raised e) s = Left q s

-- with another ring and a word that is one higher
abbrev put_world : World → Memory → Word → World
put_world w m word = record w { mem = add_one word (record w.mem { ring = m }) }

is_bound : (q : FutexQueueObject) → fq_check_open q ≡ none → is_null q.put_lock ≡ false
unfolding fq_check_open
is_bound q checked = ground arith

module _ {os : Os} {env : Env} {q : FutexQueueObject} (honest : Honest os env q) where
  module _ (bound : is_null q.put_lock ≡ false) where
    futex-Guards :
        (word : Word) (opts : Opts)
        → Guards
            (fq_lock os env q)
            (unlock os env q)
            (count os env q)
            (λ fuel. fq_wait_word os env q fuel word opts)
            (λ s. length (contents q.view.view s.0.mem.ring))
            (Left q)
            (Held q)
            (Own q)
    futex-Guards word opts = record {
      locks = fq_lock-Triple honest bound;
      unlocks = unlock-Left honest bound;
      own = λ s own. (inl own.0, own.2);
      counts = λ s own. ap (λ (r : ℕ × Option ℕ). r.1) (qsize_lem s.0.mem.ring honest.view);
      waits = λ fuel. fq_wait_word-Triple honest bound fuel word opts;
    }

    put_last-Triple :
        (bytes : List ℕ)
        → length bytes ≡ q.item_size
        → Triple
            (λ s. Own q s × (ltb (length (contents q.view.view s.0.mem.ring)) q.depth ≡ true))
            (fq_put_last os env q bytes)
            (PutEnd q bytes)
    unfolding fq_put_last
    put_last-Triple bytes size (w, tr) ((owed, ring, from), room) =
        let (runs, stored) =
          put-Stored honest.view ring from bytes (size ∙ honest.item_size)
            (ground (arith, honest.depth)) in
        rw runs (
          holds-unlocked honest bound
              (put_world w (put_done q.view.view w.mem.ring bytes) Word.not_empty, tr) owed,
          stored,
        )

    get_last-Triple :
        Triple
          (λ s. Own q s × (ltb 0 (length (contents q.view.view s.0.mem.ring)) ≡ true))
          (fq_get_last os env q true)
          (GetEnd q)
    unfolding fq_get_last
    get_last-Triple (w, tr) ((owed, ring, from), some_held) =
        let (runs, taken) = get-Taken honest.view ring from some_held in
        rw runs (
          holds-unlocked honest bound
              (put_world w (get_done q.view.view w.mem.ring) Word.not_full, tr) owed,
          taken,
        )

  pub fq_put_lem :
      (fuel : ℕ) (opts : Opts) (bytes : List ℕ) (s : State)
      → Left q s
      → After (PutEnd q bytes) (fq_put os env q fuel opts bytes s)
  unfolding fq_put
  fq_put_lem fuel opts bytes =
      let Post = PutEnd q bytes in
      let on_raised = λ (e : Option Raised) (s : State) (left : Left q s). left in
      let ready = λ (n : ℕ). ltb n q.depth in
      let last = fq_put_last os env q bytes in
      let rest = fq_loop os env q fuel Word.not_full opts ready false last in
      when_open-Triple {Left = Left q} Post on_raised (fq_check_open q) _ (λ checked.
        let bound = is_bound q checked in
        let g = futex-Guards bound Word.not_full opts in
        Triple-if {P = Left q} Post (length bytes != q.item_size)
          (give (raised (some Raised.value_error))) (when_locked (fq_lock os env q) rest)
          (λ e s left. left)
          (λ e. when_locked-Triple g Post on_raised rest (
            loop-Triple g Post on_raised false (λ s left. left) opts ready last
              (put_last-Triple bound bytes (ground arith)) fuel)))

  pub fq_get_lem :
      (fuel : ℕ) (opts : Opts) (memory : Bool) (s : State)
      → Left q s
      → After (GetEnd q) (fq_get os env q fuel opts memory true s)
  unfolding fq_get
  fq_get_lem fuel opts memory =
      let Post = GetEnd q in
      let on_raised = λ (e : Option Raised) (s : State) (left : Left q s). left in
      let ready = λ (n : ℕ). ltb 0 n in
      let last = fq_get_last os env q true in
      let rest = fq_loop os env q fuel Word.not_empty opts ready none last in
      when_open-Triple {Left = Left q} Post on_raised (fq_check_open q) _ (λ checked.
        let bound = is_bound q checked in
        let g = futex-Guards bound Word.not_empty opts in
        Triple-if {P = Left q} Post (not memory) (give (raised (some Raised.no_memory)))
          (when_locked (fq_lock os env q) rest) (λ e s left. left)
          (λ e. when_locked-Triple g Post on_raised rest (
            loop-Triple g Post on_raised none (λ s left. left) opts ready last
              (get_last-Triple bound) fuel)))

  -- A put of a futex queue that returns True has put its item behind those of the ring, the ring that
  -- it found or recovered, and one that returns False or raises has put nothing; a get that returns
  -- bytes has taken the oldest item, which they are, and one that returns None or raises has taken
  -- nothing. On every path, also where a wait could not take the lock again, the lock is not held at
  -- the end. It is assumed that the other processes leave a ring, or after a death what recovery
  -- makes one, that the lock checks its owner, and that Python has the memory for the bytes.
  pub fq_ops_lem :
      (fuel : ℕ) (opts : Opts) (bytes : List ℕ) (memory : Bool) (s : State)
      → Left q s
      → After (PutEnd q bytes) (fq_put os env q fuel opts bytes s)
        × After (GetEnd q) (fq_get os env q fuel opts memory true s)
  fq_ops_lem fuel opts bytes memory s left =
      (fq_put_lem fuel opts bytes s left, fq_get_lem fuel opts memory s left)
