-- ===== src/Bindings/Exchange/Laws.antt =====
-- The loop of put and get: what holds at the end of it, and when it ends.
use posixipc.Prelude.{
  ℕ, zero, suc, ◌≡◌, refl, arith, Bool, true, false, Option, none, some, ◌==◌, ◌!=◌, if◌then◌else◌,
}
use posixipc.Codes.{success, etimedout, error_interrupted}
use posixipc.Bindings.Errors.{Raised, Outcome, returned, raised, posixipc_err}
use posixipc.Bindings.Run.{
  Run, After, Triple, Triple-bind, Triple-if, if-true, if-false, give, ◌>>=◌,
}
use posixipc.Bindings.Acquire.{Opts}
use posixipc.Bindings.Exchange.{
  at_once, lock_failed, when_open, when_locked, unlock_and, after_wait, round_of, loop,
}

-- by whether a status is success
abbrev pub Fine : {S : Type 0} → (S → Type 0) → (S → Type 0) → ℕ → S → Type 0
Fine P Q rc s = if rc == success then P s else Q s

-- What is known of a lock: `Left` without it, `Own` with it and a ring, and `Held` where it is to be
-- given back. `size` is the number of items of the ring.
pub record Guards {S : Type 0} (lock unlock : Run S ℕ) (count : S → Option ℕ) (wait : ℕ → Run S ℕ)
    (size : S → ℕ) (Left Held Own : S → Type 0) : Type 0 where
  pub locks : Triple Left lock (Fine Own Left)
  pub unlocks : Triple Held unlock (λ rc. Left)
  pub own : (s : S) → Own s → Held s
  pub counts : (s : S) → Own s → count s ≡ some (size s)
  pub waits : (fuel : ℕ) → Triple Own (wait fuel) (Fine Own Held)

module _ {S A : Type 0} {Left : S → Type 0} (Post : Outcome A → S → Type 0)
    (on_raised : (e : Option Raised) (s : S) → Left s → Post (raised e) s) where
  pub when_open-Triple :
      (checked : Option Raised) (m : Run S (Outcome A))
      → (checked ≡ none → Triple Left m Post)
      → Triple Left (when_open checked m) Post
  when_open-Triple (some e) m h s left = on_raised (some e) s left
  when_open-Triple none m h s left = h refl s left

module _ {S : Type 0} {lock unlock : Run S ℕ} {count : S → Option ℕ} {wait : ℕ → Run S ℕ}
    {size : S → ℕ} {Left Held Own : S → Type 0}
    (g : Guards lock unlock count wait size Left Held Own) {A : Type 0}
    (Post : Outcome A → S → Type 0)
    (on_raised : (e : Option Raised) (s : S) → Left s → Post (raised e) s) where
  pub when_locked-Triple :
      (m : Run S (Outcome A)) → Triple Own m Post → Triple Left (when_locked lock m) Post
  when_locked-Triple m h s left =
      Triple-bind {Q = Fine Own Left} Post
        (λ rc. if rc != success then give (lock_failed rc) else m)
        (λ rc.
          Triple-if {P = Fine Own Left rc} Post (rc != success) (give (lock_failed rc)) m
            (λ e s' l.
              on_raised _ s' (if-false (Own s') (Left s') (rc == success) (ground arith) l))
            (λ e s' l. h s' (if-true (Own s') (Left s') (rc == success) (ground arith) l)))
        lock g.locks s left

  unlock_and-After :
      (out : Outcome A) (s : S)
      → ((s : S) → Left s → Post out s)
      → Held s
      → After Post (unlock_and unlock out s)
  unlock_and-After out s post held =
      Triple-bind {Q = λ rc. Left} Post (λ rc. give out) (λ rc s' left. post s' left) unlock
        g.unlocks s held

  awake-Held : (rc : ℕ) (s : S) → Fine Own Held rc s → Held s
  awake-Held rc s = elim (rc == success) as (λ (b : Bool). (if b then Own s else Held s) → Held s) [
    | true ↦ g.own s
    | false ↦ λ held. held
  ]

  awake-Own : (rc : ℕ) (s : S) → rc ≡ success → Fine Own Held rc s → Own s
  awake-Own rc s e = rw e (λ own. own)

  module _ (late : A) (on_late : (s : S) → Left s → Post (returned late) s) where
    after_wait-After :
        (rest : Run S (Outcome A)) (rc : ℕ) (s : S)
        → Triple Own rest Post
        → Fine Own Held rc s
        → After Post (after_wait unlock rest late rc s)
    unfolding after_wait
    after_wait-After rest rc s again h =
        let e : Option Raised =
          (if rc != error_interrupted then posixipc_err rc else some Raised.pending) in
        let fails : Run S (Outcome A) = unlock_and unlock (raised e) in
        Triple-if {P = Fine Own Held rc} Post (rc == etimedout) (unlock_and unlock (returned late))
          (if rc != success then fails else rest)
          (λ _ s' h'. unlock_and-After (returned late) s' on_late (awake-Held rc s' h'))
          (λ _.
            Triple-if {P = Fine Own Held rc} Post (rc != success) fails rest
              (λ _ s' h'. unlock_and-After (raised e) s' (on_raised e) (awake-Held rc s' h'))
              (λ fine s' h'. again s' (awake-Own rc s' (ground arith) h')))
          s h

    module _ (opts : Opts) (ready : ℕ → Bool) (last : Run S (Outcome A))
        (at_last : Triple (λ s. Own s × (ready (size s) ≡ true)) last Post) where
      round_of-After :
          (fuel : ℕ) (rest : Run S (Outcome A)) (n : Option ℕ) (s : S)
          → Triple Own rest Post
          → n ≡ some (size s)
          → Own s
          → After Post (round_of unlock count wait fuel opts ready late last rest n s)
      unfolding round_of
      round_of-After fuel rest none s again e own = absurd (ground arith)
      round_of-After fuel rest (some n) s again e own =
          let waiting = wait fuel >>= after_wait unlock rest late in
          let counted : n ≡ size s = ground arith in
          Triple-if {P = λ s'. Own s' × (n ≡ size s')} Post (ready n) last
            (if at_once opts then unlock_and unlock (returned late) else waiting)
            (λ e' s' (own', same). at_last s' (own', rw (← same) e'))
            (λ e'.
              Triple-if {P = λ s'. Own s' × (n ≡ size s')} Post (at_once opts)
                (unlock_and unlock (returned late)) waiting
                (λ e'' s' (own', same). unlock_and-After (returned late) s' on_late (g.own s' own'))
                (λ e'' s' (own', same).
                  Triple-bind {Q = Fine Own Held} Post (after_wait unlock rest late)
                    (λ rc s''. after_wait-After rest rc s'' again) (wait fuel) (g.waits fuel) s'
                    own'))
            s (own, counted)

      pub loop-Triple :
          (fuel : ℕ) → Triple Own (loop unlock count wait fuel opts ready late last) Post
      unfolding loop
      loop-Triple zero s own = tt
      loop-Triple (suc fuel) s own =
          round_of-After fuel (loop unlock count wait fuel opts ready late last) (count s) s
            (loop-Triple fuel) (g.counts s own) own
