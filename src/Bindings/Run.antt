-- ===== src/Bindings/Run.antt =====
-- Code on a state `S` that may run out of fuel: `none` says that it did. A `Triple` says what holds
-- of the result and the state afterwards, where it did not.
use posixipc.Prelude.{◌≡◌, refl, Bool, true, false, Option, none, some, if◌then◌else◌, arith}

abbrev pub Run : Type 0 → Type 0 → Type 0
Run S A = S → Option A × S

abbrev pub give : {S A : Type 0} → A → Run S A
give a s = (some a, s)

-- code that needs no fuel
abbrev pub plain : {S A : Type 0} → (S → A × S) → Run S A
plain m s = let (a, s') = m s in (some a, s')

infixl 5 ◌>>=◌ ◌>>◌
abbrev pub ◌>>=◌ : {S A B : Type 0} → Run S A → (A → Run S B) → Run S B
◌>>=◌ m f s = let (r, s') = m s in elim r [ none ↦ (none, s') | some a ↦ f a s' ]

abbrev pub ◌>>◌ : {S A B : Type 0} → Run S A → Run S B → Run S B
m >> k = m >>= λ _. k

-- a result and the state, where the fuel sufficed
abbrev pub After : {S A : Type 0} → (A → S → Type 0) → Option A × S → Type 0
After Q (none, s) = Unit {0}
After Q (some a, s) = Q a s

abbrev pub Triple : {S A : Type 0} → (S → Type 0) → Run S A → (A → S → Type 0) → Type 0
Triple {S} P m Q = (s : S) → P s → After Q (m s)

module _ {S A B : Type 0} {Q : A → S → Type 0} (R : B → S → Type 0) (f : A → Run S B)
    (rest : (a : A) (s : S) → Q a s → After R (f a s)) where
  After-bind :
      (r : Option A × S) → After Q r → After R (elim r.0 [ none ↦ (none, r.1) | some a ↦ f a r.1 ])
  After-bind (none, s) h = tt
  After-bind (some a, s) h = rest a s h

  pub Triple-bind : {P : S → Type 0} (m : Run S A) → Triple P m Q → Triple P (m >>= f) R
  Triple-bind m first s h = After-bind (m s) (first s h)

pub Triple-if :
    {S A : Type 0} {P : S → Type 0} (Q : A → S → Type 0) (c : Bool) (a b : Run S A)
    → (c ≡ true → Triple P a Q)
    → (c ≡ false → Triple P b Q)
    → Triple P (if c then a else b) Q
Triple-if Q true a b on_true on_false = on_true refl
Triple-if Q false a b on_true on_false = on_false refl

pub if-true : (A B : Type 0) (c : Bool) → c ≡ true → (if c then A else B) → A
if-true A B true e a = a
if-true A B false e a = absurd (ground arith)

pub if-false : (A B : Type 0) (c : Bool) → c ≡ false → (if c then A else B) → B
if-false A B true e b = absurd (ground arith)
if-false A B false e b = b
