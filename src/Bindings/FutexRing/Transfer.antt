-- ===== src/Bindings/FutexRing/Transfer.antt =====
-- src/bindings/py_linux.c: put, get and qsize of the queue whose waiters sleep on futex words, with
-- the buffers and the options parsed.
pub mod Items
pub mod Nowait
use Prim.Native.Nat.{bit_and, bit_or}
use mathlib.Core.Option
use posixipc.Prelude.{
  ℕ, Bool, true, false, not, ◌&&◌, ◌||◌, Option, none, some, List, is_null, length, ltb, ◌==◌, ◌!=◌,
  if◌then◌else◌,
}
use posixipc.Codes.{success, einval, eintr, etimedout, eownerdead}
use posixipc.Os.{Os, Trace}
use posixipc.Calls.{Log, Reply, Calls, clock_monotonic}
use posixipc.Time.{Seconds, Deadline, deadline_from_seconds}
use posixipc.Mutex.{mutex_lock, mutex_unlock, mutex_consistent}
use posixipc.Mutex
use posixipc.Futex.{futex_add, futex_load, futex_wait, futex_wake}
use posixipc.Futex
use posixipc.Futexq.{FutexqView, FutexqMemory}
use posixipc.Queue.{View, Memory, recover, put, get, qsize}
use posixipc.Bindings.Errors.{Raised, posixipc_err, Outcome, returned, raised}
use posixipc.Bindings.Run.{Run, give, plain, ◌>>=◌, ◌>>◌}
use posixipc.Bindings.Acquire.{Opts, nowait_opts}
use posixipc.Bindings.Wait.{lift, blocking_wait}
use posixipc.Bindings.Exchange.{when_open, when_locked, unlock_and, loop}
use posixipc.Bindings.Region.{Region, posixipc_shmobj_unpin}
use posixipc.Bindings.FutexRing.{
  FutexQueueObject, Env, State, Word, add, fq_check_open, fq_lock, fq_wait_word, on_ring, unlock,
  wake,
}

module _ (os : Os) (env : Env) (q : FutexQueueObject) where
  -- `posixipc_queue_qsize`, and the loop on one of the words
  abbrev pub count : State → Option ℕ
  count s = (qsize (some q.view.view) s.0.mem.ring).1

  abbrev pub fq_loop :
      {A : Type 0}
      → ℕ
      → Word
      → Opts
      → (ℕ → Bool)
      → A
      → Run State (Outcome A)
      → Run State (Outcome A)
  fq_loop fuel word opts =
      loop (unlock os env q) count (λ fuel'. fq_wait_word os env q fuel' word opts) fuel opts

  -- behind the loop of `fq_put`
  pub fq_put_last : List ℕ → Run State (Outcome Bool)
  fq_put_last bytes = do
    rc ← plain (on_ring os env q (put (some q.view.view) (some bytes)))
    plain (add os env q Word.not_empty)
    unlock os env q
    if rc != success
        then give (raised (posixipc_err rc))
        else do plain (wake os env q Word.not_empty 1); give (returned true)

  pub fq_put : ℕ → Opts → List ℕ → Run State (Outcome Bool)
  unfolding fq_lock fq_wait_word fq_put_last fq_check_open
  fq_put fuel opts bytes = when_open (fq_check_open q) (
      if length bytes != q.item_size
      then give (raised (some Raised.value_error))
      else when_locked (fq_lock os env q)
          (fq_loop fuel Word.not_full opts (λ n. ltb n q.depth) false (fq_put_last bytes)))

  -- Behind the loop of `fq_get`. `makes_bytes` says that PyBytes_FromStringAndSize makes an object.
  pub fq_get_last : Bool → Run State (Outcome (Option (List ℕ)))
  fq_get_last makes_bytes = do
    (rc, out) ← plain (λ (w, tr).
        let (rc, out, m) = get (some q.view.view) true w.mem.ring in
        ((rc, out), (record w { mem = record w.mem { ring = m } }, tr)))
    plain (add os env q Word.not_full)
    unlock os env q
    if rc != success then give (raised (posixipc_err rc)) else do
      plain (wake os env q Word.not_full 1)
      give (if makes_bytes then returned out else raised (some Raised.no_memory))

  -- `memory` says that PyMem_Malloc gives the buffer.
  pub fq_get : ℕ → Opts → Bool → Bool → Run State (Outcome (Option (List ℕ)))
  unfolding fq_lock fq_wait_word fq_get_last fq_check_open
  fq_get fuel opts memory makes_bytes = when_open (fq_check_open q) (
      if not memory
      then give (raised (some Raised.no_memory))
      else when_locked (fq_lock os env q)
          (fq_loop fuel Word.not_empty opts (λ n. ltb 0 n) none (fq_get_last makes_bytes)))

  -- `nowait_opts_lem` of Acquire/Laws.antt says what the options are.
  pub fq_put_nowait : List ℕ → Run State (Outcome Bool)
  unfolding fq_put
  fq_put_nowait bytes = fq_put 1 nowait_opts bytes

  pub fq_get_nowait : Bool → Bool → Run State (Outcome (Option (List ℕ)))
  unfolding fq_get
  fq_get_nowait memory makes_bytes = fq_get 1 nowait_opts memory makes_bytes

  fq_sized : Option ℕ → Run State (Outcome ℕ)
  fq_sized none = unlock_and (unlock os env q) (raised (posixipc_err einval))
  fq_sized (some n) = unlock_and (unlock os env q) (returned n)

  pub fq_qsize : Run State (Outcome ℕ)
  unfolding fq_sized fq_lock fq_check_open
  fq_qsize = when_open (fq_check_open q) (when_locked (fq_lock os env q) λ s. fq_sized (count s) s)
