-- ===== src/Mq.antt =====
-- src/core/posixipc_mq.c. A descriptor of `none` is `(mqd_t)-1`. `have` is POSIXIPC_HAVE_MQ_OPEN;
-- without it every function returns ENOTSUP. Of a `long` that is tested against 1 a negative value
-- reads as 0.
pub mod Laws
use posixipc.Prelude.{
  ℕ, suc, Bool, true, false, leb, ◌&&◌, ◌||◌, Option, none, some, List, is_null, ltb, ◌==◌, ◌!=◌,
  if◌then◌else◌,
}
use posixipc.Codes.{success, einval, enotsup}
use posixipc.Os.{Ret, ok, fail, Name, Timespec}
use posixipc.Time.{Deadline}
use posixipc.Shm.Name.{validate_mq_name}
use posixipc.Calls.{Reply, Calls, return, ◌>>=◌, ◌>>◌, call, ask}

pub data Call : Type 0 where
  -- O_CREAT | O_EXCL | O_RDWR, O_CREAT | O_RDWR, and O_RDWR; the first two with the attributes
  open_new : Name → ℕ → ℕ → Call
  open_any : Name → ℕ → ℕ → Call
  open_old : Name → Call
  close : ℕ → Call
  unlink : Name → Call
  send : ℕ → List ℕ → ℕ → Call
  timedsend : ℕ → List ℕ → ℕ → Timespec → Call
  receive : ℕ → ℕ → Call
  timedreceive : ℕ → ℕ → Timespec → Call
  notify_signal : ℕ → ℕ → Call
  notify_thread : ℕ → ℕ → ℕ → Call
  notify_cancel : ℕ → Call
  getattr : ℕ → Call

module _ (reply value : Reply Call) (have : Bool) where
  -- Of an `out` that is not NULL: the status and what `*out` holds, -1 before the call.
  open_named : Option Name → (Name → Call) → Calls Call (ℕ × Option ℕ)
  open_named name how =
      let rc = validate_mq_name name in
      if rc != success then return (rc, none) else elim name [
        | none ↦ return (einval, none)
        | some n ↦ do
          r ← ask reply value (how n)
          elim r [ ok mq ↦ return (success, some mq) | fail e ↦ return (suc e, none) ]
      ]

  -- `out` is what `*out` holds, `none` for a NULL `out`.
  mq_open_with :
      Option Name
      → ℕ
      → ℕ
      → Option (Option ℕ)
      → (Name → ℕ → ℕ → Call)
      → Calls Call (ℕ × Option (Option ℕ))
  unfolding open_named
  mq_open_with name maxmsg msgsize none how = return (if have then einval else enotsup, none)
  mq_open_with name maxmsg msgsize (some mq) how =
      if have
      then (if ltb maxmsg 1 || ltb msgsize 1
          then return (einval, some mq)
          else do (rc, mq') ← open_named name (λ n. how n maxmsg msgsize); return (rc, some mq'))
      else return (enotsup, some mq)

  pub mq_create : Option Name → ℕ → ℕ → Option (Option ℕ) → Calls Call (ℕ × Option (Option ℕ))
  unfolding mq_open_with
  mq_create name maxmsg msgsize out = mq_open_with name maxmsg msgsize out Call.open_new

  pub mq_open_or_create :
      Option Name → ℕ → ℕ → Option (Option ℕ) → Calls Call (ℕ × Option (Option ℕ))
  unfolding mq_open_with
  mq_open_or_create name maxmsg msgsize out = mq_open_with name maxmsg msgsize out Call.open_any

  pub mq_attach : Option Name → Option (Option ℕ) → Calls Call (ℕ × Option (Option ℕ))
  unfolding open_named
  mq_attach name none = return (if have then einval else enotsup, none)
  mq_attach name (some mq) =
      if have
      then (do (rc, mq') ← open_named name Call.open_old; return (rc, some mq'))
      else return (enotsup, some mq)

  -- a call by a descriptor, where the other arguments are accepted
  on_queue : Bool → (ℕ → Call) → Option ℕ → Calls Call ℕ
  on_queue accepted how none = return (if have then einval else enotsup)
  on_queue accepted how (some mq) =
      if have then (if accepted then call reply (how mq) else return einval) else return enotsup

  pub mq_close : Option ℕ → Calls Call ℕ
  unfolding on_queue
  mq_close mq = on_queue true Call.close mq

  pub mq_unlink : Option Name → Calls Call ℕ
  mq_unlink name =
      if have
      then (let rc = validate_mq_name name in
          if rc != success
          then return rc
          else elim name [ none ↦ return einval | some n ↦ call reply (Call.unlink n) ])
      else return enotsup

  -- `none` for a NULL `buf`; its `len` is the list's
  pub mq_send : Option ℕ → Option (List ℕ) → ℕ → Calls Call ℕ
  unfolding on_queue
  mq_send mq none prio = on_queue false Call.close mq
  mq_send mq (some buf) prio = on_queue true (λ q. Call.send q buf prio) mq

  pub mq_send_until : Option ℕ → Option (List ℕ) → ℕ → Option Deadline → Calls Call ℕ
  unfolding on_queue
  mq_send_until mq none prio d = on_queue false Call.close mq
  mq_send_until mq (some buf) prio none = on_queue false Call.close mq
  mq_send_until mq (some buf) prio (some d) = on_queue true (λ q. Call.timedsend q buf prio d.ts) mq

  -- a receive with its count, by a descriptor
  received : Bool → (ℕ → Call) → Option ℕ → Calls Call (ℕ × Option ℕ)
  received accepted how none = return (if have then einval else enotsup, none)
  received accepted how (some mq) =
      if have
      then (if accepted
          then (do
            r ← ask reply value (how mq)
            elim r [ ok n ↦ return (success, some n) | fail e ↦ return (suc e, none) ])
          else return (einval, none))
      else return (enotsup, none)

  -- The status and the count that is stored through `got`. `buf` and `got` are false for NULL.
  pub mq_receive : Option ℕ → Bool → ℕ → Bool → Calls Call (ℕ × Option ℕ)
  unfolding received
  mq_receive mq buf len got = received (buf && got) (λ q. Call.receive q len) mq

  pub mq_receive_until : Option ℕ → Bool → ℕ → Bool → Option Deadline → Calls Call (ℕ × Option ℕ)
  unfolding received
  mq_receive_until mq buf len got none = received false Call.close mq
  mq_receive_until mq buf len got (some d) =
      received (buf && got) (λ q. Call.timedreceive q len d.ts) mq

  pub mq_notify_signal : Option ℕ → ℕ → Calls Call ℕ
  unfolding on_queue
  mq_notify_signal mq signo = on_queue (leb 1 signo) (λ q. Call.notify_signal q signo) mq

  -- `none` for a NULL `fn`
  pub mq_notify_thread : Option ℕ → Option ℕ → ℕ → Calls Call ℕ
  unfolding on_queue
  mq_notify_thread mq none arg = on_queue false Call.close mq
  mq_notify_thread mq (some fn) arg = on_queue true (λ q. Call.notify_thread q fn arg) mq

  pub mq_notify_cancel : Option ℕ → Calls Call ℕ
  unfolding on_queue
  mq_notify_cancel mq = on_queue true Call.notify_cancel mq

  -- the status and the size that is stored through `out`; `wants` is false for a NULL `out`
  pub mq_msgsize : Option ℕ → Bool → Calls Call (ℕ × Option ℕ)
  unfolding received
  mq_msgsize mq wants = received wants Call.getattr mq
