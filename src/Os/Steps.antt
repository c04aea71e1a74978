-- ===== src/Os/Steps.antt =====
-- Of code in `Io`: what holds on every branch of a call or a test holds of the whole.
use posixipc.Prelude.{ℕ, suc, ◌≡◌, refl, Bool, true, false, if◌then◌else◌, ◌∷◌}
use posixipc.Os.{Ret, ok, fail, Event, Trace, Io, perform, branch, attempt}

branch-holds :
    {A B : Type 0}
    → (P : B × Trace → Type 0) → (r : Ret A) (bad : ℕ → Io B) (good : A → Io B) (tr : Ret A → Trace)
    → ((e : ℕ) → P (bad (suc e) (tr (fail e))))
    → ((a : A) → P (good a (tr (ok a))))
    → P (branch r bad good (tr r))
branch-holds P (ok a) bad good tr fails runs = runs a
branch-holds P (fail e) bad good tr fails runs = fails e

pub attempt-holds :
    {A B : Type 0}
    → (P : B × Trace → Type 0)
    → (reply : Trace → Ret A) (event : Ret A → Event) (bad : ℕ → Io B) (good : A → Io B)
      (tr : Trace)
    → ((e : ℕ) → P (bad (suc e) (event (fail e) ∷ tr)))
    → ((a : A) → P (good a (event (ok a) ∷ tr)))
    → P (attempt (perform reply event) bad good tr)
attempt-holds P reply event bad good tr fails runs =
    branch-holds P (reply tr) bad good (λ r. event r ∷ tr) fails runs

pub if-holds :
    {B : Type 0}
    → (P : B × Trace → Type 0) → (c : Bool) (a b : Io B) (tr : Trace) → (c ≡ true → P (a tr))
    → (c ≡ false → P (b tr))
    → P ((if c then a else b) tr)
if-holds P true a b tr on_true on_false = on_true refl
if-holds P false a b tr on_true on_false = on_false refl
