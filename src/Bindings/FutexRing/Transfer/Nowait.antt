-- ===== src/Bindings/FutexRing/Transfer/Nowait.antt =====
-- put_nowait and get_nowait of the futex queue of src/bindings/py_linux.c return.
use posixipc.Prelude.{
  ℕ, ◌≡◌, refl, arith, Bool, true, false, not, none, some, List, length, ltb, ◌!=◌,
}
use posixipc.Os.{Os}
use posixipc.Bindings.Errors.{Raised, raised}
use posixipc.Bindings.Run.{give}
use posixipc.Bindings.Acquire.{Opts, nowait_opts}
use posixipc.Bindings.Wait.Ends.{ended}
use posixipc.Bindings.Exchange.{when_locked}
use posixipc.Bindings.Exchange.Ending.{
  Ends, ends, ended-if, when_open-ended, when_locked-ended, loop-ended,
}
use posixipc.Bindings.FutexRing.{
  FutexQueueObject, Env, State, Word, unlock, take_lock, recover_ring, fq_lock, fq_wait_word,
  fq_check_open,
}
use posixipc.Bindings.FutexRing.Transfer.{
  count, fq_loop, fq_put_last, fq_put, fq_get_last, fq_get, fq_put_nowait, fq_get_nowait,
}
use posixipc.Bindings.FutexRing.Laws.{Honest, Left}
use posixipc.Bindings.FutexRing.Transfer.Items.{PutEnd, GetEnd, fq_put_lem, fq_get_lem}

module _ (os : Os) (env : Env) (q : FutexQueueObject) where
  recover_ring-ended : (s : State) → ended (recover_ring os env q s) ≡ true
  unfolding recover_ring
  recover_ring-ended s = ground arith

  fq_lock-ended : (s : State) → ended (fq_lock os env q s) ≡ true
  unfolding fq_lock
  fq_lock-ended s = ground (arith, recover_ring-ended (take_lock os env q s).1)

  put_last-ended : (bytes : List ℕ) (s : State) → ended (fq_put_last os env q bytes s) ≡ true
  unfolding fq_put_last
  put_last-ended bytes s = ground arith

  get_last-ended : (s : State) → ended (fq_get_last os env q true s) ≡ true
  unfolding fq_get_last
  get_last-ended s = ground arith

  put_ends : (bytes : List ℕ) (s : State) → ended (fq_put os env q 1 nowait_opts bytes s) ≡ true
  unfolding fq_put
  put_ends bytes s =
      let opts : Opts = nowait_opts in
      let room = λ (n : ℕ). ltb n q.depth in
      let rest = fq_loop os env q 1 Word.not_full opts room false (fq_put_last os env q bytes) in
      let lock = fq_lock os env q in
      when_open-ended (fq_check_open q) _ s (
        ended-if (length bytes != q.item_size) (give (raised (some Raised.value_error)))
          (when_locked lock rest) s refl
          (when_locked-ended lock rest s (fq_lock-ended s) (
            loop-ended (unlock os env q) (count os env q)
              (λ fuel. fq_wait_word os env q fuel Word.not_full opts) (λ s'. refl) opts refl room
              false (fq_put_last os env q bytes) (put_last-ended bytes))))

  get_ends :
      (memory : Bool) (s : State) → ended (fq_get os env q 1 nowait_opts memory true s) ≡ true
  unfolding fq_get
  get_ends memory s =
      let opts : Opts = nowait_opts in
      let item = λ (n : ℕ). ltb 0 n in
      let rest = fq_loop os env q 1 Word.not_empty opts item none (fq_get_last os env q true) in
      let lock = fq_lock os env q in
      when_open-ended (fq_check_open q) _ s (
        ended-if (not memory) (give (raised (some Raised.no_memory))) (when_locked lock rest) s refl
          (when_locked-ended lock rest s (fq_lock-ended s) (
            loop-ended (unlock os env q) (count os env q)
              (λ fuel. fq_wait_word os env q fuel Word.not_empty opts) (λ s'. refl) opts refl item
              none (fq_get_last os env q true) get_last-ended)))

-- put_nowait and get_nowait of a futex queue return, with one round of their loops, and do to the
-- ring what a put and a get that return do. What is assumed is what is for those.
pub fq_nowait_lem :
    {os : Os} {env : Env} {q : FutexQueueObject}
    → Honest os env q
    → (bytes : List ℕ) (memory : Bool) (s : State) → Left q s
    → Ends (PutEnd q bytes) (fq_put_nowait os env q bytes s)
      × Ends (GetEnd q) (fq_get_nowait os env q memory true s)
unfolding fq_put_nowait fq_get_nowait
fq_nowait_lem {os} {env} {q} honest bytes memory s left =
    let opts : Opts = nowait_opts in
    (
      ends (PutEnd q bytes) (fq_put os env q 1 opts bytes s) (put_ends os env q bytes s)
          (fq_put_lem honest 1 opts bytes s left),
      ends (GetEnd q) (fq_get os env q 1 opts memory true s) (get_ends os env q memory s)
          (fq_get_lem honest 1 opts memory s left),
    )
