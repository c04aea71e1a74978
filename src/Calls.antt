-- ===== src/Calls.antt =====
-- A library of C calls as a parameter: `Reply C` says what a call of `C` returns, by the calls made
-- before it, the last one first. The wrappers of src/core are written in `Calls`.
use posixipc.Prelude.{◌-◌, ◌==◌, if◌then◌else◌, ℕ, Option, none, some, List, ◌∷◌}
use posixipc.Codes.{einval}
use posixipc.Os.{Ret, ok, fail}

abbrev pub Log : Type 0 → Type 0
Log C = List (C × ℕ)

abbrev pub Reply : Type 0 → Type 0
Reply C = Log C → C → ℕ

abbrev pub Calls : Type 0 → Type 0 → Type 0
Calls C A = Log C → A × Log C

abbrev pub return : {C A : Type 0} → A → Calls C A
return a log = (a, log)

infixl 5 ◌>>=◌ ◌>>◌
abbrev pub ◌>>=◌ : {C A B : Type 0} → Calls C A → (A → Calls C B) → Calls C B
◌>>=◌ m f log = let (a, log') = m log in f a log'

abbrev pub ◌>>◌ : {C A B : Type 0} → Calls C A → Calls C B → Calls C B
m >> k = m >>= λ _. k

abbrev pub call : {C : Type 0} → Reply C → C → Calls C ℕ
call reply c log = let rc = reply log c in (rc, (c, rc) ∷ log)

-- a call that gives a descriptor or a pointer: `value` says which, where the status is 0
abbrev pub ask : {C : Type 0} → Reply C → Reply C → C → Calls C (Ret ℕ)
ask reply value c log =
    let rc = reply log c in (if rc == 0 then ok (value log c) else fail (rc - 1), (c, rc) ∷ log)

-- `if (p == NULL) return EINVAL; return f(p);`
abbrev pub on_pointer : {C : Type 0} → Reply C → (ℕ → C) → Option ℕ → Calls C ℕ
on_pointer reply f none = return einval
on_pointer reply f (some p) = call reply (f p)

-- Of flags: POSIXIPC_FLAG_ROBUST and its like are powers of two.
abbrev pub flag_robust : ℕ
flag_robust = 1

abbrev pub flag_process_shared : ℕ
flag_process_shared = 2

abbrev pub flag_priority_inherit : ℕ
flag_priority_inherit = 32

abbrev pub flag_monotonic : ℕ
flag_monotonic = 64

-- the clocks
abbrev pub clock_realtime : ℕ
clock_realtime = 0

abbrev pub clock_monotonic : ℕ
clock_monotonic = 1
