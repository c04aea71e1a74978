-- ===== src/Bindings/Ring/Transfer.antt =====
-- src/bindings/py_queue.c: put, get and qsize, with the buffers and the options parsed. `memory` says
-- that PyMem_Malloc gave the buffer.
pub mod Laws
pub mod Items
pub mod Nowait
use posixipc.Prelude.{
  ℕ, zero, suc, ◌≡◌, Bool, true, false, not, ◌&&◌, ◌||◌, Option, none, some, List, is_null, length,
  ltb, leb, ◌==◌, ◌!=◌, if◌then◌else◌,
}
use posixipc.Codes.{success, einval, etimedout, error_interrupted, enotrecoverable}
use posixipc.Os.{Os}
use posixipc.Time.{Seconds}
use posixipc.Cond.{cond_signal}
use posixipc.Queue.{Memory, put, get, qsize}
use posixipc.Bindings.Errors.{Raised, posixipc_err, Outcome, returned, raised}
use posixipc.Bindings.Run.{Run, give, plain, ◌>>=◌, ◌>>◌}
use posixipc.Bindings.Acquire.{Opts, nowait_opts}
use posixipc.Bindings.Exchange.{when_open, when_locked, unlock_and, loop}
use posixipc.Bindings.Ring.{
  QueueObject, World, Env, State, queue_check_open, on_cond, unlock, queue_lock, queue_wait_cond,
}

module _ (os : Os) (env : Env) (q : QueueObject) where
  -- `posixipc_queue_qsize`, and the loop of the two conditions
  abbrev pub count : State → Option ℕ
  count s = (qsize (some (q.view)) s.0.mem).1

  abbrev pub ring_loop :
      {A : Type 0}
      → ℕ
      → Option ℕ
      → Opts
      → (ℕ → Bool)
      → A
      → Run State (Outcome A)
      → Run State (Outcome A)
  ring_loop fuel cond opts =
      loop (unlock os env q) count (λ fuel'. queue_wait_cond os env q fuel' cond opts) fuel opts

  -- behind the loop of `queue_put`
  pub put_last : List ℕ → Run State (Outcome Bool)
  put_last bytes = do
    rc ← plain (λ (w, tr).
        let (rc, m) = put (some (q.view)) (some bytes) w.mem in (rc, (record w { mem = m }, tr)))
    unlock os env q
    if rc != success then give (raised (posixipc_err rc)) else do
      plain (on_cond os env q λ reply. cond_signal reply q.not_empty)
      give (returned true)

  pub queue_put : ℕ → Opts → List ℕ → Run State (Outcome Bool)
  unfolding put_last
  queue_put fuel opts bytes = when_open (queue_check_open q) (
      if length bytes != q.item_size
      then give (raised (some Raised.value_error))
      else when_locked (queue_lock os env q)
          (ring_loop fuel q.not_full opts (λ n. ltb n q.depth) false (put_last bytes)))

  -- Behind the loop of `queue_get`. The bytes that are copied out are what is returned; `makes_bytes`
  -- says that PyBytes_FromStringAndSize makes an object of them.
  pub get_last : Bool → Run State (Outcome (Option (List ℕ)))
  get_last makes_bytes = do
    (rc, out) ← plain (λ (w, tr).
        let (rc, out, m) = get (some (q.view)) true w.mem in
        ((rc, out), (record w { mem = m }, tr)))
    unlock os env q
    if rc != success then give (raised (posixipc_err rc)) else do
      plain (on_cond os env q λ reply. cond_signal reply q.not_full)
      give (if makes_bytes then returned out else raised (some Raised.no_memory))

  pub queue_get : ℕ → Opts → Bool → Bool → Run State (Outcome (Option (List ℕ)))
  unfolding get_last
  queue_get fuel opts memory makes_bytes = when_open (queue_check_open q) (
      if not memory
      then give (raised (some Raised.no_memory))
      else when_locked (queue_lock os env q)
          (ring_loop fuel q.not_empty opts (λ n. ltb 0 n) none (get_last makes_bytes)))

  -- `nowait_opts_lem` of Acquire/Laws.antt says what the options are.
  pub queue_put_nowait : List ℕ → Run State (Outcome Bool)
  unfolding queue_put
  queue_put_nowait bytes = queue_put 1 nowait_opts bytes

  pub queue_get_nowait : Bool → Bool → Run State (Outcome (Option (List ℕ)))
  unfolding queue_get
  queue_get_nowait memory makes_bytes = queue_get 1 nowait_opts memory makes_bytes

  -- behind the lock of `queue_qsize`
  sized : Option ℕ → Run State (Outcome ℕ)
  sized none = unlock_and (unlock os env q) (raised (posixipc_err einval))
  sized (some n) = unlock_and (unlock os env q) (returned n)

  pub queue_qsize : Run State (Outcome ℕ)
  unfolding sized
  queue_qsize =
      when_open (queue_check_open q) (when_locked (queue_lock os env q) λ s. sized (count s) s)
