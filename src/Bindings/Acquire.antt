-- ===== src/Bindings/Acquire.antt =====
-- src/bindings/py_wait.c: `posixipc_parse_acquire`, the options of a call that may wait. An argument
-- is what the calls of Python tell of it.
pub mod Laws
use posixipc.Prelude.{
  Bool, true, false, not, ◌&&◌, ◌||◌, Option, none, some, List, [], ◌∷◌, is_null, if◌then◌else◌,
}
use posixipc.Time.{Seconds}
use posixipc.Bindings.Errors.{Raised, Outcome, returned, raised}

-- a `double`, with `== 0.0` and `> 0.0`
pub record Double : Type 0 where
  pub seconds : Seconds
  pub is_zero : Bool
  pub is_positive : Bool

-- `== Py_None`, `PyObject_IsTrue` and `PyFloat_AsDouble`, which are `none` where they set an exception
pub record Value : Type 0 where
  pub is_none : Bool
  pub truth : Option Bool
  pub double : Option Double

-- a keyword; `unreadable` where `PyUnicode_AsUTF8` gives NULL
pub data Key : Type 0 where
  unreadable timeout blocking interruptible unknown : Key

-- `posixipc_acquire_opts`; `timeout` is `none` for `timeout_none`, and `zero_timeout` and
-- `positive_timeout` are `timeout == 0.0` and `timeout > 0.0`
pub record Opts : Type 0 where
  pub timeout : Option Seconds
  pub zero_timeout : Bool
  pub positive_timeout : Bool
  pub blocking : Bool
  pub interruptible : Bool

-- the options while the keywords are read, with `timeout_obj`, `none` for Py_None
pub record Partial : Type 0 where
  pub timeout_obj : Option Value
  pub blocking : Bool
  pub interruptible : Bool

abbrev pub default : Partial
default = record { timeout_obj = none; blocking = true; interruptible = true }

-- behind PyObject_IsTrue
abbrev with_truth : Option Bool → (Bool → Partial) → Outcome Partial
with_truth none f = raised (some Raised.pending)
with_truth (some b) f = returned (f b)

-- a keyword; `positional` says that the timeout is given by position
read_key : Bool → Key → Value → Partial → Outcome Partial
read_key positional Key.unreadable v p = raised (some Raised.pending)
read_key positional Key.timeout v p =
    if positional
    then raised (some Raised.type_error)
    else returned (record p { timeout_obj = some v })
read_key positional Key.blocking v p = with_truth v.truth (λ b. record p { blocking = b })
read_key positional Key.interruptible v p = with_truth v.truth (λ b. record p { interruptible = b })
read_key positional Key.unknown v p = raised (some Raised.type_error)

-- the loop
pub read_keys : Bool → List (Key × Value) → Partial → Outcome Partial
unfolding read_key
read_keys positional [] p = returned p
read_keys positional ((key, v) ∷ rest) p = elim (read_key positional key v p) [
  | returned p' ↦ read_keys positional rest p'
  | raised e ↦ raised e
]

-- a timeout that is given as a number
timed : Partial → Option Double → Outcome Opts
timed p none = raised (some Raised.pending)
timed p (some d) =
    if d.seconds.is_nan || d.seconds.is_negative
    then raised (some Raised.value_error)
    else if not p.blocking && d.is_positive
    then raised (some Raised.value_error)
    else returned (record {
      timeout = some (d.seconds);
      zero_timeout = d.is_zero;
      positive_timeout = d.is_positive;
      blocking = p.blocking;
      interruptible = p.interruptible;
    })

-- `timeout_obj == Py_None`
untimed : Partial → Outcome Opts
untimed p = returned (record {
  timeout = none;
  zero_timeout = true;
  positive_timeout = false;
  blocking = p.blocking;
  interruptible = p.interruptible;
})

-- behind the loop
pub read_timeout : Partial → Option Value → Outcome Opts
unfolding timed untimed
read_timeout p none = untimed p
read_timeout p (some v) = if v.is_none then untimed p else timed p v.double

-- behind the loop, with its result
read_rest : Outcome Partial → Outcome Opts
unfolding read_timeout
read_rest (returned p) = read_timeout p p.timeout_obj
read_rest (raised e) = raised e

read_all : Bool → List (Key × Value) → Partial → Outcome Opts
unfolding read_keys read_rest
read_all positional keys p = read_rest (read_keys positional keys p)

-- the arguments by position, and those by keyword
pub posixipc_parse_acquire : List Value → List (Key × Value) → Outcome Opts
unfolding read_all
posixipc_parse_acquire [] keys = read_all false keys default
posixipc_parse_acquire (v ∷ []) keys = read_all true keys (record default { timeout_obj = some v })
posixipc_parse_acquire (v ∷ w ∷ more) keys = raised (some Raised.type_error)

-- Py_False, of which PyFloat_AsDouble is 0.0
abbrev pub py_false : Value
py_false = record {
  is_none = false;
  truth = some false;
  double = some (record {
    seconds = record { is_nan = false; is_negative = false; whole = 0; nanos = 0 };
    is_zero = true;
    is_positive = false;
  });
}

abbrev pub nowait_opts : Opts
nowait_opts = record {
  timeout = none;
  zero_timeout = true;
  positive_timeout = false;
  blocking = false;
  interruptible = true;
}
