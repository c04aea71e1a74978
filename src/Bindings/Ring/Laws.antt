-- ===== src/Bindings/Ring/Laws.antt =====
-- The lock and the waits of src/bindings/py_queue.c: who holds the lock, and what the memory is.
use posixipc.Prelude.{
  ℕ, suc, ◌-◌, ◌≡◌, ◌≢◌, refl, ap, ◌∙◌, arith, Bool, true, false, Option, none, some, [], ◌∷◌,
  is_null, ◌⊎◌, inl, inr, ◌==◌, ◌!=◌, ◌||◌, if◌then◌else◌,
}
use posixipc.Codes.{success, etimedout, eownerdead}
use posixipc.Os.{Os, Trace, status_of}
use posixipc.Calls.{Log, Reply}
use posixipc.Time.{Deadline}
use posixipc.Mutex.{mutex_lock, mutex_unlock, mutex_consistent}
use posixipc.Mutex
use posixipc.Cond.{cond_wait}
use posixipc.Queue.{View, Memory, recover}
use posixipc.Queue.Ring.{IsView, IsRing}
use posixipc.Bindings.Run.{Run, After, Triple, Triple-bind, Triple-if, give, plain, ◌>>=◌, ◌>>◌}
use posixipc.Bindings.Exchange.Items.{Untouched, Recovers}
use posixipc.Bindings.Ring.{
  QueueObject, Env, State, on_mutex, on_cond, lent, unlock, broadcast_both, recover_ring,
  queue_lock, queue_cond_until_cb,
}

-- how often the locks were taken more than given back
abbrev pub owes : Log Mutex.Call → ℕ
owes [] = 0
owes ((Mutex.Call.lock m, rc) ∷ log) =
    if rc == success || rc == eownerdead then suc (owes log) else owes log
owes ((Mutex.Call.unlock m, rc) ∷ log) = owes log - 1
owes (c ∷ log) = owes log

owes-lock :
    (reply : Reply Mutex.Call) (m : Option ℕ) (log : Log Mutex.Call)
    → let (rc, log') = mutex_lock reply m log in
      owes log' ≡ (if rc == success || rc == eownerdead then suc (owes log) else owes log)
unfolding mutex_lock
owes-lock reply none log = refl
owes-lock reply (some m) log = refl

owes-unlock :
    (reply : Reply Mutex.Call) (m : Option ℕ) (log : Log Mutex.Call)
    → is_null m ≡ false
    → owes (mutex_unlock reply m log).1 ≡ owes log - 1
unfolding mutex_unlock
owes-unlock reply none log bound = absurd (ground arith)
owes-unlock reply (some m) log bound = refl

owes-consistent :
    (reply : Reply Mutex.Call) (m : Option ℕ) (log : Log Mutex.Call)
    → owes (mutex_consistent reply m log).1 ≡ owes log
unfolding mutex_consistent
owes-consistent reply none log = refl
owes-consistent reply (some m) log = refl

-- What a lock or a wait that comes back with the lock finds: a ring, or after an owner that died what
-- recovery makes a ring.
abbrev pub Lends : View → ℕ × State → Type 0
Lends v (rc, (w, tr)) =
    (rc ≡ success ⊎ rc ≡ etimedout → IsRing v w.mem) × (rc ≡ eownerdead → Recovers v w.mem)

-- by a status: EOWNERDEAD, success, or another
abbrev pub ByStatus : ℕ → Type 0 → Type 0 → Type 0 → Type 0
ByStatus rc D O F = if rc == eownerdead then D else if rc == success then O else F

pub ByStatus-intro :
    (rc : ℕ) (D O F : Type 0)
    → (rc ≡ eownerdead → D)
    → (rc ≡ success → O)
    → (rc ≢ eownerdead → rc ≢ success → F)
    → ByStatus rc D O F
ByStatus-intro rc D O F d o f =
    go (rc == eownerdead) (rc == success) (λ e. ground arith) (λ e. ground arith)
      (λ e. ground arith) (λ e. ground arith)
  where
    go :
        (dead fine : Bool)
        → (dead ≡ true → rc ≡ eownerdead)
        → (fine ≡ true → rc ≡ success)
        → (dead ≡ false → rc ≢ eownerdead)
        → (fine ≡ false → rc ≢ success)
        → (if dead then D else if fine then O else F)
    go true fine e e' n n' = d (e refl)
    go false true e e' n n' = o (e' refl)
    go false false e e' n n' = f (n refl) (n' refl)

pub ByStatus-if :
    (Q : ℕ → State → Type 0) (rc : ℕ) (D O F : Type 0) (a b : Run State ℕ) (s : State)
    → (D → After Q (a s))
    → ((if rc == success then O else F) → After Q (b s))
    → ByStatus rc D O F
    → After Q ((if rc == eownerdead then a else b) s)
ByStatus-if Q rc D O F a b s dead alive =
    elim (rc == eownerdead)
      as (λ (c : Bool).
        (if c then D else if rc == success then O else F) → After Q ((if c then a else b) s)) [
          | true ↦ dead
          | false ↦ alive
        ]

-- What the other processes and the C library promise. The first three are the invariant of
-- Queue/System.antt for the memory that a process finds.
pub record Honest (os : Os) (env : Env) (q : QueueObject) : Type 0 where
  pub locks :
      (s : State)
      → Lends q.view (lent os env q (on_mutex os env q (λ reply. mutex_lock reply q.put_lock) s))
  pub waits :
      (cond : Option ℕ) (s : State)
      → Lends q.view (lent os env q (on_cond os env q (λ reply. cond_wait reply cond q.put_lock) s))
  pub times_out :
      (cond : Option ℕ) (d : Deadline) (s : State)
      → Lends q.view (queue_cond_until_cb os env q cond d s)
  -- no clock has an owner
  pub clocks : (tr : Trace) (clk : ℕ) → status_of (os.clock_gettime tr clk) ≢ eownerdead
  -- the view is that of the object
  pub view : IsView q.view
  pub depth : q.depth ≡ q.view.depth
  pub item_size : q.item_size ≡ q.view.item_size

-- by the number of locks that are held otherwise
module _ (q : QueueObject) (k : ℕ) where
  abbrev pub Free : State → Type 0
  Free (w, tr) = owes w.mutexes ≡ k

  abbrev pub Left : State → Type 0
  Left (w, tr) = (owes w.mutexes ≡ k) × Untouched q.view w.found w.mem

  abbrev pub Held : State → Type 0
  Held (w, tr) = (owes w.mutexes ≡ suc k) × Untouched q.view w.found w.mem

  -- with a ring
  abbrev pub Own : State → Type 0
  Own (w, tr) = (owes w.mutexes ≡ suc k) × IsRing q.view w.mem × Untouched q.view w.found w.mem

  -- with a ring to be recovered
  abbrev pub Dead : State → Type 0
  Dead (w, tr) = (owes w.mutexes ≡ suc k) × (w.mem ≡ w.found) × Recovers q.view w.mem

module _ {os : Os} {env : Env} {q : QueueObject} (honest : Honest os env q)
    (bound : is_null q.put_lock ≡ false) (k : ℕ) where
  consistent-Own :
      Triple
        (Own q k)
        (plain (on_mutex os env q λ reply. mutex_consistent reply q.put_lock))
        (λ rc. Own q k)
  consistent-Own (w, tr) (owed, ring, from) =
      (owes-consistent (env.mutex w) q.put_lock w.mutexes ∙ owed, ring, from)

  pub owes-unlocked :
      (s : State) → owes s.0.mutexes ≡ suc k → owes (unlock os env q s).1.0.mutexes ≡ k
  owes-unlocked (w, tr) owed =
      omega (arith, owed, owes-unlock (env.mutex w) q.put_lock w.mutexes bound)

  -- the states behind a lock
  abbrev pub Locked : ℕ → State → Type 0
  Locked rc s = ByStatus rc (Dead q k s) (Own q k s) (Left q k s)

  lock-Locked :
      (r : ℕ × State)
      → owes r.1.0.mutexes ≡ (if r.0 == success || r.0 == eownerdead then suc k else k)
      → r.1.0.mem ≡ r.1.0.found
      → Lends q.view r
      → Locked r.0 r.1
  lock-Locked (rc, (w, tr)) owed same (ring, dead) =
      ByStatus-intro rc (Dead q k (w, tr)) (Own q k (w, tr)) (Left q k (w, tr))
        (λ e. let (fine, ring') = dead e in (ground arith, same, (fine, ring')))
        (λ e. (ground arith, ring (inl e), inl same)) (λ ne ne'. (ground arith, inl same))

  module _ (failed : ℕ → Run State ℕ) (Q : ℕ → State → Type 0)
      (fails : (rc : ℕ) → rc ≢ success → Triple (Held q k) (failed rc) Q)
      (fine : (s : State) → Own q k s → Q success s) where
    made_consistent :
        Triple
          (Own q k)
          (plain (on_mutex os env q (λ reply. mutex_consistent reply q.put_lock)) >>= λ rc.
            if rc != success then failed rc else (broadcast_both os env q >> give success))
          Q
    made_consistent =
        Triple-bind {Q = λ rc. Own q k} Q _
          (λ rc.
            Triple-if {P = Own q k} Q (rc != success) (failed rc)
              (broadcast_both os env q >> give success)
              (λ e s (owed, ring, from). fails rc (ground arith) s (owed, from))
              (λ e (w, tr) own. fine _ own))
          (plain (on_mutex os env q λ reply. mutex_consistent reply q.put_lock)) consistent-Own

    pub recover_ring-Triple : Triple (Dead q k) (recover_ring os env q failed) Q
    unfolding recover_ring
    recover_ring-Triple (w, tr) (owed, same, (recovered, ring)) = rw recovered (
        made_consistent _
          (owed, ring, inr (ap (λ (m : Memory). (recover (some (q.view)) m).1) same)))

  -- `queue_lock` succeeds with the lock and a ring, and fails without the lock.
  abbrev pub LockedOrLeft : ℕ → State → Type 0
  LockedOrLeft rc s = if rc == success then Own q k s else Left q k s

  LockedOrLeft-fails : (rc : ℕ) (s : State) → rc ≢ success → Left q k s → LockedOrLeft rc s
  LockedOrLeft-fails rc s ne free =
      elim (rc == success)
          as (λ (b : Bool). (b ≡ true → rc ≡ success) → if b then Own q k s else Left q k s) [
            | true ↦ λ e. absurd (ne (e refl))
            | false ↦ λ e. free
          ]
        (λ e. ground arith)

  pub queue_lock-Triple : Triple (Free q k) (queue_lock os env q) LockedOrLeft
  unfolding queue_lock
  queue_lock-Triple (w, tr) free =
      let r = lent os env q (on_mutex os env q (λ reply. mutex_lock reply q.put_lock) (w, tr)) in
      ByStatus-if LockedOrLeft r.0 (Dead q k r.1) (Own q k r.1) (Left q k r.1)
        (recover_ring os env q (λ rc. unlock os env q >> give rc)) (give r.0) r.1
        (recover_ring-Triple (λ rc. unlock os env q >> give rc) LockedOrLeft
          (λ rc ne s held.
            LockedOrLeft-fails rc (unlock os env q s).1 ne (owes-unlocked s held.0, held.1))
          (λ s own. own) r.1)
        (λ h. h)
        (lock-Locked r (ground (arith, owes-lock (env.mutex w) q.put_lock w.mutexes)) refl
          (honest.locks (w, tr)))
