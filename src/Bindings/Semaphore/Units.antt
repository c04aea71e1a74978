-- ===== src/Bindings/Semaphore/Units.antt =====
-- The units that a semaphore object of src/bindings/py_sync.c has taken, and those it has given.
use posixipc.Prelude.{
  ℕ, zero, suc, ◌+◌, ◌≤◌, ◌<◌, ◌≡◌, ◌≢◌, refl, ◌∙◌, arith, Bool, true, false, Option, none, some,
  List, [], ◌∷◌, ◌==◌, ◌!=◌, if◌then◌else◌,
}
use posixipc.Codes.{success}
use posixipc.Os.{Os, Trace}
use posixipc.Calls.{Log, Reply}
use posixipc.Sem.{sem_post}
use posixipc.Sem
use posixipc.Bindings.Errors.{Raised, Outcome, returned, raised, posixipc_err}
use posixipc.Bindings.Run.{After}
use posixipc.Bindings.Acquire.{Value, Key}
use posixipc.Bindings.Semaphore.{
  SemaphoreObject, State, Times, on_sem, sem_check_open, sem_acquire, post_times, release_times,
  sem_release,
}
use posixipc.Bindings.Semaphore.Laws.{Acquired, acquire-Acquired}

abbrev one_if : ℕ → ℕ → ℕ
one_if rc n = if rc == success then suc n else n

-- the units taken by the calls, and those given
abbrev pub took : Log Sem.Call → ℕ
took [] = 0
took ((Sem.Call.wait s, rc) ∷ log) = one_if rc (took log)
took ((Sem.Call.trywait s, rc) ∷ log) = one_if rc (took log)
took ((Sem.Call.clockwait s clk ts, rc) ∷ log) = one_if rc (took log)
took ((Sem.Call.timedwait s ts, rc) ∷ log) = one_if rc (took log)
took (c ∷ log) = took log

abbrev pub gave : Log Sem.Call → ℕ
gave [] = 0
gave ((Sem.Call.post s, rc) ∷ log) = one_if rc (gave log)
gave (c ∷ log) = gave log

-- behind an acquire from `k` units taken and `l` given
abbrev pub Took : ℕ → ℕ → Outcome Bool → State → Type 0
Took k l (returned true) (o, tr) = (took o.sems ≡ suc k) × (gave o.sems ≡ l)
Took k l (returned false) (o, tr) = (took o.sems ≡ k) × (gave o.sems ≡ l)
Took k l (raised e) (o, tr) = (took o.sems ≡ k) × (gave o.sems ≡ l)

-- behind a release of up to `n` units
abbrev pub Gave : ℕ → ℕ → ℕ → Outcome Bool × State → Type 0
Gave k l n (returned b, (o, tr)) = (took o.sems ≡ k) × (gave o.sems ≡ l + n)
Gave k l n (raised e, (o, tr)) = (took o.sems ≡ k) × (l ≤ gave o.sems) × (gave o.sems < l + n)

Took-both :
    (k l : ℕ) (r : Option (Outcome Bool) × State)
    → After (Acquired took one_if k) r
    → After (Acquired gave (λ rc n. n) l) r
    → After (Took k l) r
Took-both k l (none, s) t g = tt
Took-both k l (some (returned true), s) t g = (t, g)
Took-both k l (some (returned false), s) t g = (t, g)
Took-both k l (some (raised e), s) t g = (t, g)

Gave-suc : (k l n : ℕ) (r : Outcome Bool × State) → Gave k (suc l) n r → Gave k l (suc n) r
Gave-suc k l n (returned b, (o, tr)) (t, g) = (t, omega arith)
Gave-suc k l n (raised e, (o, tr)) (t, g, h) = (t, omega arith, omega arith)

-- the units that a release is asked for
abbrev pub asked_for : Times → ℕ
asked_for Times.unreadable = 1
asked_for Times.below_one = 1
asked_for (Times.given n) = n

one_if-only : (rc k : ℕ) → rc ≢ success → one_if rc k ≡ k
one_if-only rc k ne = ground arith

module _ (os : Os) (reply : SemaphoreObject → Reply Sem.Call) (have_clockwait : Bool)
    (signals : State → Bool × State) where
  -- one post
  posted :
      (o : SemaphoreObject) (tr : Trace)
      → let (rc, (o', tr')) = on_sem os reply have_clockwait signals sem_post (o, tr) in
        (took o'.sems ≡ took o.sems) × (gave o'.sems ≡ one_if rc (gave o.sems))
  unfolding sem_post
  posted o tr = go o.sem
    where
      go :
          (s : Option ℕ)
          → let (rc, log) = sem_post (reply o) s o.sems in
            (took log ≡ took o.sems) × (gave log ≡ one_if rc (gave o.sems))
      go none = (refl, refl)
      go (some s) = (refl, refl)

  post_times-Gave :
      (n k l : ℕ) (o : SemaphoreObject) (tr : Trace)
      → took o.sems ≡ k
      → gave o.sems ≡ l
      → Gave k l n (post_times os reply have_clockwait signals n (o, tr))
  unfolding post_times
  post_times-Gave zero k l o tr t g = (t, omega arith)
  post_times-Gave (suc n) k l o tr t g =
      let r = on_sem os reply have_clockwait signals sem_post (o, tr) in
      let (kept, added) = posted o tr in
      elim (r.0 != success)
          as (λ (b : Bool).
            (b ≡ true → r.0 ≢ success)
            → (b ≡ false → r.0 ≡ success)
            → Gave k l (suc n) (
                if b
                then (raised (posixipc_err r.0), r.1)
                else post_times os reply have_clockwait signals n r.1)) [
                  | true ↦ λ bad fine.
                      let none_more = one_if-only r.0 (gave o.sems) (bad refl) in
                      (kept ∙ t, omega arith, omega arith)
                  | false ↦ λ bad fine.
                      let one_more : gave r.1.0.sems ≡ suc l = ground (arith, fine refl) in
                      Gave-suc k l n (post_times os reply have_clockwait signals n r.1)
                        (post_times-Gave n k (suc l) r.1.0 r.1.1 (kept ∙ t) one_more)
                ]
        (λ e. ground arith) (λ e. ground arith)

  release_times-Gave :
      (checked : Option Raised) (n : Times) (k l : ℕ) (o : SemaphoreObject) (tr : Trace)
      → took o.sems ≡ k
      → gave o.sems ≡ l
      → 0 < asked_for n
      → Gave k l (asked_for n) (release_times os reply have_clockwait signals checked n (o, tr))
  unfolding release_times
  release_times-Gave (some e) n k l o tr t g pos = (t, omega arith, omega arith)
  release_times-Gave none Times.unreadable k l o tr t g pos = (t, omega arith, omega arith)
  release_times-Gave none Times.below_one k l o tr t g pos = (t, omega arith, omega arith)
  release_times-Gave none (Times.given n) k l o tr t g pos = post_times-Gave n k l o tr t g

  -- An acquire of a semaphore that returns True has taken one unit, and one that returns False or
  -- raises none; neither gives any. A release that returns has given the units it was asked for, and
  -- one that raises fewer; neither takes any. It is assumed that the signal handlers leave the
  -- semaphore alone.
  pub semaphore_ops_lem :
      (handlers : (s : State) → (signals s).1.0.sems ≡ s.0.sems) (fuel : ℕ) (args : List Value)
      (keys : List (Key × Value)) (n : Times) (o : SemaphoreObject) (tr : Trace)
      → 0 < asked_for n
      → After
          (Took (took o.sems) (gave o.sems))
          (sem_acquire os reply have_clockwait signals fuel args keys (o, tr))
        × Gave
            (took o.sems)
            (gave o.sems)
            (asked_for n)
            (sem_release os reply have_clockwait signals n (o, tr))
  unfolding sem_release
  semaphore_ops_lem handlers fuel args keys n o tr pos = (
    Took-both (took o.sems) (gave o.sems)
        (sem_acquire os reply have_clockwait signals fuel args keys (o, tr))
        (acquire-Acquired took one_if one_if-only (λ r log s. (refl, refl))
          (λ log s rc d. (refl, refl)) os reply have_clockwait signals handlers (took o.sems) fuel
          args keys (o, tr) refl)
        (acquire-Acquired gave (λ rc m. m) (λ rc m ne. refl) (λ r log s. (refl, refl))
          (λ log s rc d. (refl, refl)) os reply have_clockwait signals handlers (gave o.sems) fuel
          args keys (o, tr) refl),
    release_times-Gave (sem_check_open o) n (took o.sems) (gave o.sems) o tr refl refl pos,
  )
