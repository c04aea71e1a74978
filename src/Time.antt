-- ===== src/Time.antt =====
-- src/core/posixipc_time.c. A time is a `Timespec` whose fields are not negative.
pub mod Laws
use posixipc.Prelude.{
  ℕ, suc, not, ◌+◌, ◌-◌, Bool, true, false, ◌||◌, ◌&&◌, Option, none, some, ltb, leb, ◌==◌, ◌!=◌,
  if◌then◌else◌,
}
use posixipc.Codes.{success, einval}
use posixipc.Os.{Os, Ret, ok, fail, Timespec, Event, Trace, Io, pure, ◌>>=◌, perform, status_of}

-- `posixipc_deadline`
pub record Deadline : Type 0 where
  pub clk : ℕ
  pub ts : Timespec

-- What the code reads of a `double seconds`: `seconds != seconds`, `seconds < 0.0`,
-- `(time_t)seconds` and `(long)(frac * 1000000000.0)`.
pub record Seconds : Type 0 where
  pub is_nan : Bool
  pub is_negative : Bool
  pub whole : ℕ
  pub nanos : ℕ

abbrev pub billion : ℕ
billion = 1_000_000_000

pub add_seconds : Timespec → Seconds → Timespec
add_seconds ts s =
    let add = if ltb 100_000_000 s.whole then 100_000_000 else s.whole in
    let sec = ts.sec + add in
    let nsec = ts.nsec + s.nanos in
    if leb billion nsec
    then record { sec = sec + 1; nsec = nsec - billion }
    else record { sec = sec; nsec = nsec }

-- `*out` of `posixipc_deadline_min`
pub deadline_min : Deadline → Deadline → Deadline
deadline_min a b =
    if a.clk != b.clk
    then a
    else if ltb b.ts.sec a.ts.sec || (b.ts.sec == a.ts.sec && ltb b.ts.nsec a.ts.nsec)
    then b
    else a

-- the comparison at the end of `posixipc_deadline_expired`
pub passed : Timespec → Timespec → Bool
passed now ts =
    if ltb ts.sec now.sec then true else if ltb now.sec ts.sec then false else leb ts.nsec now.nsec

module _ (os : Os) where
  clock_gettime : ℕ → Io (Ret Timespec)
  clock_gettime clk = perform (λ tr. os.clock_gettime tr clk) (Event.clock_gettime clk)

  -- `wants` is false for a NULL `out`; the time is what is stored there.
  unfoldable pub now : ℕ → Bool → Io (ℕ × Option Timespec)
  unfolding clock_gettime
  now clk false = pure (einval, none)
  now clk true = do
    r ← clock_gettime clk
    elim r [ ok ts ↦ pure (success, some ts) | fail e ↦ pure (suc e, none) ]

  -- `wants` is false for a NULL `out`; the deadline is what is stored there.
  unfoldable pub deadline_from_seconds : ℕ → Seconds → Bool → Io (ℕ × Option Deadline)
  unfolding now add_seconds
  deadline_from_seconds clk s wants =
      if not wants || (s.is_nan || s.is_negative) then pure (einval, none) else do
        (rc, ts) ← now clk true
        elim ts [
          | none ↦ pure (rc, none)
          | some t ↦ pure (success, some (record { clk = clk; ts = add_seconds t s }))
        ]

  -- `none` for a NULL deadline
  unfoldable pub deadline_expired : Option Deadline → Io Bool
  unfolding now passed
  deadline_expired none = pure false
  deadline_expired (some d) = do
    (rc, ts) ← now d.clk true
    elim ts [ none ↦ pure true | some t ↦ pure (passed t d.ts) ]
