-- ===== src/Bindings/FutexRing/Laws.antt =====
-- The lock of the futex queue of src/bindings/py_linux.c: who holds it, and what the ring is.
use posixipc.Prelude.{
  ℕ, ◌≡◌, ◌≢◌, refl, ap, ◌∙◌, arith, Bool, true, false, Option, none, some, is_null, ◌⊎◌, inl, inr,
  ◌==◌, ◌!=◌, if◌then◌else◌,
}
use posixipc.Codes.{success, eownerdead}
use posixipc.Os.{Os}
use posixipc.Calls.{Log, Reply}
use posixipc.Mutex.{mutex_lock, mutex_unlock, mutex_consistent}
use posixipc.Mutex
use posixipc.Queue.{View, Memory, recover}
use posixipc.Queue.Ring.{IsView, IsRing}
use posixipc.Bindings.Run.{Run, Triple, Triple-bind, Triple-if, give, plain, ◌>>=◌}
use posixipc.Bindings.Lock.Laws.{holds, lock-Tries}
use posixipc.Bindings.Exchange.Items.{Untouched, Recovers}
use posixipc.Bindings.Exchange.Laws.{Fine}
use posixipc.Bindings.FutexRing.{
  FutexQueueObject, World, Env, State, on_mutex, unlock, take_lock, wake_all, unlock_failed,
  recover_ring, fq_lock,
}

-- What a lock that is taken finds: a ring, or after an owner that died what recovery makes a ring.
abbrev pub Finds : View → ℕ × State → Type 0
Finds v (rc, (w, tr)) =
    (rc ≡ success → IsRing v w.mem.ring) × (rc ≡ eownerdead → Recovers v w.mem.ring)

-- What the other processes and the C library promise. The first is the invariant of
-- Queue/System.antt for the memory that a process finds, the next two are those of a mutex that
-- checks its owner.
pub record Honest (os : Os) (env : Env) (q : FutexQueueObject) : Type 0 where
  pub locks : (s : State) → Finds q.view.view (take_lock os env q s)
  pub refuses :
      (w : World) (m : ℕ)
      → holds w.mutexes ≡ 0
      → env.mutex w w.mutexes (Mutex.Call.unlock m) ≢ success
  pub unlocks :
      (w : World) (m : ℕ)
      → holds w.mutexes ≡ 1
      → env.mutex w w.mutexes (Mutex.Call.unlock m) ≡ success
  -- the view is that of the object
  pub view : IsView q.view.view
  pub depth : q.depth ≡ q.view.view.depth
  pub item_size : q.item_size ≡ q.view.view.item_size

module _ (q : FutexQueueObject) where
  -- this process has stored nothing in the ring, but that it may have recovered it
  abbrev pub Same : World → Type 0
  Same w = Untouched q.view.view w.found w.mem.ring

  abbrev pub Left : State → Type 0
  Left (w, tr) = (holds w.mutexes ≡ 0) × Same w

  -- with the lock, or behind a lock that failed
  abbrev pub Held : State → Type 0
  Held (w, tr) = (holds w.mutexes ≡ 1 ⊎ holds w.mutexes ≡ 0) × Same w

  -- with the lock and a ring
  abbrev pub Own : State → Type 0
  Own (w, tr) = (holds w.mutexes ≡ 1) × IsRing q.view.view w.mem.ring × Same w

  -- with the lock and a ring to be recovered
  abbrev pub Dead : State → Type 0
  Dead (w, tr) = (holds w.mutexes ≡ 1) × (w.mem.ring ≡ w.found) × Recovers q.view.view w.mem.ring

holds-consistent :
    (reply : Reply Mutex.Call) (m : Option ℕ) (log : Log Mutex.Call)
    → holds (mutex_consistent reply m log).1 ≡ holds log
unfolding mutex_consistent
holds-consistent reply none log = refl
holds-consistent reply (some m) log = refl

module _ {os : Os} {env : Env} {q : FutexQueueObject} (honest : Honest os env q)
    (bound : is_null q.put_lock ≡ false) where
  -- the reply of an unlock, and who holds the lock behind it
  holds-unlock :
      (w : World) (m : Option ℕ)
      → is_null m ≡ false
      → (holds w.mutexes ≡ 1 → (mutex_unlock (env.mutex w) m w.mutexes).0 ≡ success)
        × (holds w.mutexes ≡ 1 ⊎ holds w.mutexes ≡ 0
            → holds (mutex_unlock (env.mutex w) m w.mutexes).1 ≡ 0)
  unfolding mutex_unlock
  holds-unlock w none e = absurd (ground arith)
  holds-unlock w (some m) e = (
    honest.unlocks w m,
    λ h. elim h [
      | inl owned ↦ ground (arith, honest.unlocks w m owned)
      | inr free ↦ ground (arith, honest.refuses w m free)
    ],
  )

  pub unlock-Left : Triple (Held q) (unlock os env q) (λ rc. Left q)
  unlock-Left (w, tr) (owed, same) = ((holds-unlock w q.put_lock bound).1 owed, same)

  pub holds-unlocked :
      (s : State) → holds s.0.mutexes ≡ 1 → holds (unlock os env q s).1.0.mutexes ≡ 0
  holds-unlocked (w, tr) owed = (holds-unlock w q.put_lock bound).1 (inl owed)

  -- the states behind a lock
  abbrev Locked : ℕ → State → Type 0
  Locked rc s =
      (rc ≡ eownerdead → Dead q s)
      × (rc ≡ success → Own q s)
      × (rc ≢ eownerdead → rc ≢ success → Left q s)

  take-Locked : (s : State) → Left q s → let (rc, s') = take_lock os env q s in Locked rc s'
  take-Locked (w, tr) (free, same) =
      let (ring, dead) = honest.locks (w, tr) in
      let taken = (lock-Tries (env.mutex w) w.mutexes q.put_lock).0 in
      (
        λ e. (ground arith, refl, dead e),
        λ e. (ground arith, ring e, inl refl),
        λ ne ne'. (ground arith, inl refl),
      )

  Fine-fails : (rc : ℕ) (s : State) → rc ≢ success → Left q s → Fine (Own q) (Left q) rc s
  Fine-fails rc s ne left =
      elim (rc == success)
          as (λ (b : Bool). (b ≡ true → rc ≡ success) → if b then Own q s else Left q s) [
            | true ↦ λ e. absurd (ne (e refl))
            | false ↦ λ e. left
          ]
        (λ e. ground arith)

  unlock_failed-Triple :
      (rc : ℕ) → rc ≢ success → Triple (Held q) (unlock_failed os env q rc) (Fine (Own q) (Left q))
  unlock_failed-Triple rc ne s held =
      Triple-bind {Q = λ rc'. Left q} (Fine (Own q) (Left q)) (λ rc'. give rc)
        (λ rc' s' left. Fine-fails rc s' ne left) (unlock os env q) unlock-Left s held

  abbrev consistent : Run State ℕ
  consistent = plain (on_mutex os env q λ reply. mutex_consistent reply q.put_lock)

  consistent-Own : Triple (Own q) consistent (λ rc. Own q)
  consistent-Own (w, tr) (owed, ring, from) =
      (holds-consistent (env.mutex w) q.put_lock w.mutexes ∙ owed, ring, from)

  made_consistent :
      Triple
        (Own q)
        (consistent >>= λ rc.
          if rc != success then unlock_failed os env q rc else wake_all os env q)
        (Fine (Own q) (Left q))
  made_consistent =
      Triple-bind {Q = λ rc. Own q} (Fine (Own q) (Left q))
        (λ rc. if rc != success then unlock_failed os env q rc else wake_all os env q)
        (λ rc.
          Triple-if {P = Own q} (Fine (Own q) (Left q)) (rc != success) (unlock_failed os env q rc)
            (wake_all os env q)
            (λ e s (owed, ring, from). unlock_failed-Triple rc (ground arith) s (inl owed, from))
            (λ e (w, tr) own. own))
        consistent consistent-Own

  recover_ring-Triple : Triple (Dead q) (recover_ring os env q) (Fine (Own q) (Left q))
  unfolding recover_ring
  recover_ring-Triple (w, tr) (owed, same, (recovered, ring)) = rw recovered (
      made_consistent _
        (owed, ring, inr (ap (λ (m : Memory). (recover (some q.view.view) m).1) same)))

  -- A lock succeeds with the lock and a ring, and fails without the lock.
  pub fq_lock-Triple : Triple (Left q) (fq_lock os env q) (Fine (Own q) (Left q))
  unfolding fq_lock
  fq_lock-Triple s left =
      Triple-bind {Q = Locked} (Fine (Own q) (Left q))
        (λ rc. if rc == eownerdead then recover_ring os env q else give rc)
        (λ rc.
          Triple-if {P = Locked rc} (Fine (Own q) (Left q)) (rc == eownerdead)
            (recover_ring os env q) (give rc)
            (λ e s' h. recover_ring-Triple s' (h.0 (ground arith)))
            (λ e s' h. given rc s' (ground arith) h))
        (plain (take_lock os env q)) take-Locked s left
    where
      given : (rc : ℕ) (s : State) → rc ≢ eownerdead → Locked rc s → Fine (Own q) (Left q) rc s
      given rc s ne h =
          elim (rc == success)
              as (λ (b : Bool).
                (b ≡ true → rc ≡ success)
                → (b ≡ false → rc ≢ success)
                → if b then Own q s else Left q s) [
                  | true ↦ λ e n. h.1 (e refl)
                  | false ↦ λ e n. h.2 ne (n refl)
                ]
            (λ e. ground arith) (λ e. ground arith)
