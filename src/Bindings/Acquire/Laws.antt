-- ===== src/Bindings/Acquire/Laws.antt =====
-- What the options of src/bindings/py_wait.c may be.
use posixipc.Prelude.{
  ◌≡◌, ◌≢◌, refl, arith, Bool, true, false, not, ◌&&◌, ◌||◌, Option, none, some, List, [], ◌∷◌,
  if◌then◌else◌,
}
use posixipc.Time.{Seconds}
use posixipc.Bindings.Errors.{Raised, Outcome, returned, raised}
use posixipc.Bindings.Acquire.{
  Double, Value, Key, Opts, Partial, default, with_truth, read_key, read_keys, timed, untimed,
  read_timeout, read_rest, read_all, posixipc_parse_acquire, py_false, nowait_opts,
}

-- A timeout is a number that is not NaN and not below zero, and that of a call that does not block is
-- not above zero.
abbrev pub IsAllowed : Opts → Type 0
IsAllowed opts =
    ((t : Seconds) → opts.timeout ≡ some t → (t.is_nan ≡ false) × (t.is_negative ≡ false))
    × (opts.blocking ≡ false → opts.positive_timeout ≡ false)

-- of a call that fails, that it sets an exception
abbrev pub Allows : Outcome Opts → Type 0
Allows (returned opts) = IsAllowed opts
Allows (raised e) = e ≢ none

Allows-if :
    (c : Bool) (a b : Outcome Opts)
    → (c ≡ true → Allows a)
    → (c ≡ false → Allows b)
    → Allows (if c then a else b)
Allows-if true a b h k = h refl
Allows-if false a b h k = k refl

timed-Allows : (p : Partial) (d : Option Double) → Allows (timed p d)
unfolding timed
timed-Allows p none = λ e. ground arith
timed-Allows p (some d) =
    Allows-if (d.seconds.is_nan || d.seconds.is_negative) (raised (some Raised.value_error)) _
      (λ e e'. ground arith)
      (λ e.
        Allows-if (not p.blocking && d.is_positive) (raised (some Raised.value_error)) (returned _)
          (λ e' e''. ground arith) (λ e'. (λ t same. ground arith, λ nb. ground arith)))

read_timeout-Allows : (p : Partial) (v : Option Value) → Allows (read_timeout p v)
unfolding read_timeout untimed
read_timeout-Allows p none = (λ t e. ground arith, λ e. refl)
read_timeout-Allows p (some v) =
    Allows-if v.is_none (untimed p) (timed p v.double) (λ e. (λ t e'. ground arith, λ e'. refl))
      (λ e. timed-Allows p v.double)

-- a failure sets an exception
abbrev Sets : Outcome Partial → Type 0
Sets (returned p) = Unit {0}
Sets (raised e) = e ≢ none

with_truth-Sets : (truth : Option Bool) (f : Bool → Partial) → Sets (with_truth truth f)
with_truth-Sets none f = λ e. ground arith
with_truth-Sets (some b) f = tt

read_key-Sets :
    (positional : Bool) (key : Key) (v : Value) (p : Partial) → Sets (read_key positional key v p)
unfolding read_key
read_key-Sets positional Key.unreadable v p = λ e. ground arith
read_key-Sets true Key.timeout v p = λ e. ground arith
read_key-Sets false Key.timeout v p = tt
read_key-Sets positional Key.blocking v p = with_truth-Sets v.truth (λ b. record p { blocking = b })
read_key-Sets positional Key.interruptible v p =
    with_truth-Sets v.truth (λ b. record p { interruptible = b })
read_key-Sets positional Key.unknown v p = λ e. ground arith

read_keys-Sets :
    (positional : Bool) (keys : List (Key × Value)) (p : Partial)
    → Sets (read_keys positional keys p)
unfolding read_keys
read_keys-Sets positional [] p = tt
read_keys-Sets positional ((key, v) ∷ rest) p =
    elim (read_key positional key v p)
        as (λ (r : Outcome Partial).
          Sets r
          → Sets (elim r [ returned p' ↦ read_keys positional rest p' | raised e ↦ raised e ])) [
            | returned p' ↦ λ h. read_keys-Sets positional rest p'
            | raised e ↦ λ h. h
          ]
      (read_key-Sets positional key v p)

read_rest-Allows : (r : Outcome Partial) → Sets r → Allows (read_rest r)
unfolding read_rest
read_rest-Allows (returned p) h = read_timeout-Allows p p.timeout_obj
read_rest-Allows (raised e) h = h

-- The arguments of a call that may wait either give options that are allowed, a timeout that is a
-- number and not below zero, and none above zero for a call that does not block, or set an exception.
pub posixipc_parse_acquire_lem :
    (args : List Value) (keys : List (Key × Value)) → Allows (posixipc_parse_acquire args keys)
unfolding posixipc_parse_acquire read_all
posixipc_parse_acquire_lem [] keys = read_rest-Allows _ (read_keys-Sets false keys default)
posixipc_parse_acquire_lem (v ∷ []) keys =
    read_rest-Allows _ (read_keys-Sets true keys (record default { timeout_obj = some v }))
posixipc_parse_acquire_lem (v ∷ w ∷ more) keys = λ e. ground arith

-- the options of put_nowait and get_nowait, which pass `blocking=False`
pub nowait_opts_lem :
    posixipc_parse_acquire [] ((Key.blocking, py_false) ∷ []) ≡ returned nowait_opts
unfolding posixipc_parse_acquire read_all read_keys read_key read_rest read_timeout untimed
nowait_opts_lem = refl
