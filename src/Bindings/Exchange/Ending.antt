-- ===== src/Bindings/Exchange/Ending.antt =====
-- When the calls of put and get that do not wait return.
use posixipc.Prelude.{
  ℕ, ◌≡◌, refl, arith, Bool, true, false, Option, none, some, ◌!=◌, if◌then◌else◌,
}
use posixipc.Codes.{success, einval}
use posixipc.Bindings.Errors.{Raised, Outcome, returned, raised, posixipc_err}
use posixipc.Bindings.Run.{Run, After, give, ◌>>=◌}
use posixipc.Bindings.Wait.Ends.{ended}
use posixipc.Bindings.Acquire.{Opts}
use posixipc.Bindings.Exchange.{at_once, lock_failed, when_open, when_locked, round_of, loop}

module _ {S : Type 0} where
  pub ended-bind :
      {A B : Type 0} (m : Run S A) (f : A → Run S B) (s : S)
      → ended (m s) ≡ true
      → ((a : A) (s : S) → ended (f a s) ≡ true)
      → ended ((m >>= f) s) ≡ true
  ended-bind {A} {B} m f s h k = go (m s) h
    where
      go :
          (r : Option A × S)
          → ended {S = S} {A = A} r ≡ true
          → ended {S = S} {A = B} (elim r.0 [ none ↦ (none, r.1) | some a ↦ f a r.1 ]) ≡ true
      go (none, s') e = absurd (ground arith)
      go (some a, s') e = k a s'

  pub ended-if :
      {A : Type 0} (c : Bool) (a b : Run S A) (s : S)
      → ended (a s) ≡ true
      → ended (b s) ≡ true
      → ended ((if c then a else b) s) ≡ true
  ended-if true a b s h k = h
  ended-if false a b s h k = k

  module _ {A : Type 0} where
    pub when_open-ended :
        (checked : Option Raised) (m : Run S (Outcome A)) (s : S)
        → ended (m s) ≡ true
        → ended (when_open checked m s) ≡ true
    when_open-ended (some e) m s h = refl
    when_open-ended none m s h = h

    pub when_locked-ended :
        (lock : Run S ℕ) (m : Run S (Outcome A)) (s : S)
        → ended (lock s) ≡ true
        → ((s : S) → ended (m s) ≡ true)
        → ended (when_locked lock m s) ≡ true
    when_locked-ended lock m s l h =
        ended-bind lock (λ rc. if rc != success then give (lock_failed rc) else m) s l
          (λ rc s'. ended-if (rc != success) (give (lock_failed rc)) m s' refl (h s'))

    -- `unlock` ends
    module _ (unlock : Run S ℕ) (count : S → Option ℕ) (wait : ℕ → Run S ℕ)
        (unlocks : (s : S) → ended (unlock s) ≡ true) (opts : Opts) (now : at_once opts ≡ true)
        (ready : ℕ → Bool) (late : A) (last : Run S (Outcome A))
        (lasts : (s : S) → ended (last s) ≡ true) where
      round_of-ended :
          (rest : Run S (Outcome A)) (n : Option ℕ) (s : S)
          → ended (round_of unlock count wait 0 opts ready late last rest n s) ≡ true
      unfolding round_of
      round_of-ended rest none s =
          ended-bind unlock (λ rc. give (raised (posixipc_err einval))) s (unlocks s)
            (λ rc s'. refl)
      round_of-ended rest (some n) s =
          ended-if (ready n) last _ s (lasts s)
            (rw now (ended-bind unlock (λ rc. give (returned late)) s (unlocks s) (λ rc s'. refl)))

      pub loop-ended : (s : S) → ended (loop unlock count wait 1 opts ready late last s) ≡ true
      unfolding loop
      loop-ended s = round_of-ended (λ s'. (none, s')) (count s) s

-- what holds where a call has ended, as it has
abbrev pub Ends : {S A : Type 0} → (A → S → Type 0) → Option A × S → Type 0
Ends Q (none, s) = ⊥
Ends Q (some a, s) = Q a s

pub ends :
    {S A : Type 0} (Q : A → S → Type 0) (r : Option A × S) → ended r ≡ true → After Q r → Ends Q r
ends Q (none, s) e after = absurd (ground arith)
ends Q (some a, s) e after = after
