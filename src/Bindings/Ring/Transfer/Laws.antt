-- ===== src/Bindings/Ring/Transfer/Laws.antt =====
-- What is known of the lock and the waits of a put or get of src/bindings/py_queue.c.
use posixipc.Prelude.{ℕ, ◌≡◌, ap, Option, is_null, length, false}
use posixipc.Os.{Os}
use posixipc.Queue.Ring.{contents}
use posixipc.Queue.Refine.{qsize_lem}
use posixipc.Bindings.Acquire.{Opts}
use posixipc.Bindings.Exchange.Laws.{Guards}
use posixipc.Bindings.Ring.{QueueObject, Env, unlock, queue_lock, queue_wait_cond}
use posixipc.Bindings.Ring.Laws.{Honest, Left, Held, Own, owes-unlocked, queue_lock-Triple}
use posixipc.Bindings.Ring.Waiting.{queue_wait_cond-Triple}
use posixipc.Bindings.Ring.Transfer.{count}

module _ {os : Os} {env : Env} {q : QueueObject} (honest : Honest os env q)
    (bound : is_null q.put_lock ≡ false) (k : ℕ) where
  pub ring-Guards :
      (cond : Option ℕ) (opts : Opts)
      → Guards
          (queue_lock os env q)
          (unlock os env q)
          (count os env q)
          (λ fuel. queue_wait_cond os env q fuel cond opts)
          (λ s. length (contents q.view s.0.mem))
          (Left q k)
          (Held q k)
          (Own q k)
  ring-Guards cond opts = record {
    locks = λ s left. queue_lock-Triple honest bound k s left.0;
    unlocks = λ s held. (owes-unlocked honest bound k s held.0, held.1);
    own = λ s own. (own.0, own.2);
    counts = λ s own. ap (λ (r : ℕ × Option ℕ). r.1) (qsize_lem s.0.mem honest.view);
    waits = λ fuel. queue_wait_cond-Triple honest bound k fuel cond opts;
  }
