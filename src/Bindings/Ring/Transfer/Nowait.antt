-- ===== src/Bindings/Ring/Transfer/Nowait.antt =====
-- put_nowait, get_nowait and qsize of src/bindings/py_queue.c return.
use posixipc.Prelude.{
  ℕ, ◌≡◌, refl, arith, Bool, true, false, not, none, some, List, length, ltb, ◌!=◌,
}
use posixipc.Os.{Os}
use posixipc.Bindings.Errors.{Raised, raised}
use posixipc.Bindings.Run.{give, ◌>>◌}
use posixipc.Bindings.Wait.Ends.{ended}
use posixipc.Bindings.Acquire.{Opts, nowait_opts}
use posixipc.Bindings.Ring.{
  QueueObject, Env, State, queue_check_open, queue_wait_cond, queue_lock, recover_ring, unlock,
  lent, on_mutex,
}
use posixipc.Bindings.Ring.Laws.{Honest, Left}
use posixipc.Bindings.Ring.Transfer.Items.{PutEnd, GetEnd, queue_put_lem, queue_get_lem}
use posixipc.Mutex.{mutex_lock}
use posixipc.Bindings.Exchange.{when_locked}
use posixipc.Bindings.Exchange.Ending.{
  Ends, ends, ended-if, when_open-ended, when_locked-ended, loop-ended,
}
use posixipc.Bindings.Ring.Transfer.{
  count, ring_loop, put_last, queue_put, queue_put_nowait, get_last, queue_get, queue_get_nowait,
}

module _ (os : Os) (env : Env) (q : QueueObject) where
  recover_ring-ended :
      (s : State) → ended (recover_ring os env q (λ rc. unlock os env q >> give rc) s) ≡ true
  unfolding recover_ring
  recover_ring-ended s = ground arith

  queue_lock-ended : (s : State) → ended (queue_lock os env q s) ≡ true
  unfolding queue_lock
  queue_lock-ended s = ground (
    arith,
    recover_ring-ended
        (lent os env q (on_mutex os env q (λ reply. mutex_lock reply q.put_lock) s)).1,
  )

  unlock-ended : (s : State) → ended (unlock os env q s) ≡ true
  unlock-ended s = refl

  put_last-ended : (bytes : List ℕ) (s : State) → ended (put_last os env q bytes s) ≡ true
  unfolding put_last
  put_last-ended bytes s = ground arith

  get_last-ended : (makes_bytes : Bool) (s : State) → ended (get_last os env q makes_bytes s) ≡ true
  unfolding get_last
  get_last-ended makes_bytes s = ground arith

  nowait_ends :
      (bytes : List ℕ) (memory makes_bytes : Bool) (s : State)
      → (ended (queue_put_nowait os env q bytes s) ≡ true)
        × (ended (queue_get_nowait os env q memory makes_bytes s) ≡ true)
  unfolding queue_put_nowait queue_get_nowait queue_put queue_get
  nowait_ends bytes memory makes_bytes s =
      let opts : Opts = nowait_opts in
      let room = λ (n : ℕ). ltb n q.depth in
      let item = λ (n : ℕ). ltb 0 n in
      let put_rest = ring_loop os env q 1 q.not_full opts room false (put_last os env q bytes) in
      let get_rest =
        ring_loop os env q 1 q.not_empty opts item none (get_last os env q makes_bytes) in
      let lock = queue_lock os env q in
      (
        when_open-ended (queue_check_open q) _ s (
            ended-if (length bytes != q.item_size) (give (raised (some Raised.value_error)))
              (when_locked lock put_rest) s refl
              (when_locked-ended lock put_rest s (queue_lock-ended s) (
                loop-ended (unlock os env q) (count os env q)
                  (λ fuel. queue_wait_cond os env q fuel q.not_full opts) unlock-ended opts refl
                  room false (put_last os env q bytes) (put_last-ended bytes)))),
        when_open-ended (queue_check_open q) _ s (
            ended-if (not memory) (give (raised (some Raised.no_memory)))
              (when_locked lock get_rest) s refl
              (when_locked-ended lock get_rest s (queue_lock-ended s) (
                loop-ended (unlock os env q) (count os env q)
                  (λ fuel. queue_wait_cond os env q fuel q.not_empty opts) unlock-ended opts refl
                  item none (get_last os env q makes_bytes) (get_last-ended makes_bytes)))),
      )

-- put_nowait and get_nowait return, with one round of their loops, and do to the ring what a put and a
-- get that return do. What is assumed is what is for those.
pub nowait_lem :
    {os : Os} {env : Env} {q : QueueObject}
    → Honest os env q
    → (k : ℕ) (bytes : List ℕ) (memory makes_bytes : Bool) (s : State) → Left q k s
    → Ends (PutEnd q k bytes) (queue_put_nowait os env q bytes s)
      × Ends (GetEnd q k makes_bytes) (queue_get_nowait os env q memory makes_bytes s)
unfolding queue_put_nowait queue_get_nowait
nowait_lem {os} {env} {q} honest k bytes memory makes_bytes s left =
    let opts : Opts = nowait_opts in
    let (put_ends, get_ends) = nowait_ends os env q bytes memory makes_bytes s in
    (
      ends (PutEnd q k bytes) (queue_put os env q 1 opts bytes s) put_ends
          (queue_put_lem honest k 1 opts bytes s left),
      ends (GetEnd q k makes_bytes) (queue_get os env q 1 opts memory makes_bytes s) get_ends
          (queue_get_lem honest k 1 opts memory makes_bytes s left),
    )
