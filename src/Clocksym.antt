-- ===== src/Clocksym.antt =====
-- src/core/posixipc_clocksym.c. `Symbols` is the static variables, a pointer to a function a number,
-- `none` for NULL; `Found` is what `dlsym` finds. Each function takes the variables and returns them.
pub mod Laws
use posixipc.Prelude.{
  ℕ, Bool, true, false, not, ◌&&◌, Option, none, some, List, ◌∷◌, is_null, if◌then◌else◌,
}
use posixipc.Codes.{enosys}
use posixipc.Os.{Timespec}
use posixipc.Calls.{Reply, Log}

pub record Symbols : Type 0 where
  pub mutex_clocklock : Option ℕ
  pub rwlock_clockrdlock : Option ℕ
  pub rwlock_clockwrlock : Option ℕ
  pub sem_clockwait : Option ℕ
  pub inited : Bool

pub record Found : Type 0 where
  pub mutex_clocklock : Option ℕ
  pub rwlock_clockrdlock : Option ℕ
  pub rwlock_clockwrlock : Option ℕ
  pub sem_clockwait : Option ℕ

-- a call of the function `fn` by a lock, a clock and a time
pub data Call : Type 0 where
  indirect : ℕ → ℕ → ℕ → Timespec → Call

-- static storage before the first call
abbrev pub fresh : Symbols
fresh = record {
  mutex_clocklock = none;
  rwlock_clockrdlock = none;
  rwlock_clockwrlock = none;
  sem_clockwait = none;
  inited = false;
}

module _ (dl : Found) where
  pub init : Symbols → Symbols
  init s = if s.inited then s else record {
    mutex_clocklock = dl.mutex_clocklock;
    rwlock_clockrdlock = dl.rwlock_clockrdlock;
    rwlock_clockwrlock = dl.rwlock_clockwrlock;
    sem_clockwait = dl.sem_clockwait;
    inited = true;
  }

  pub set_mutex_clocklock : Option ℕ → Symbols → Symbols
  set_mutex_clocklock fn s = record s { mutex_clocklock = fn; inited = true }

  pub have_mutex_clocklock : Symbols → Bool × Symbols
  unfolding init
  have_mutex_clocklock s = let s' = init s in (not (is_null s'.mutex_clocklock), s')

  pub have_rwlock_clocklock : Symbols → Bool × Symbols
  unfolding init
  have_rwlock_clocklock s =
      let s' = init s in
      (not (is_null s'.rwlock_clockrdlock) && not (is_null s'.rwlock_clockwrlock), s')

  pub have_sem_clockwait : Symbols → Bool × Symbols
  unfolding init
  have_sem_clockwait s = let s' = init s in (not (is_null s'.sem_clockwait), s')

  module _ (reply : Reply Call) where
    -- a call through a variable: ENOSYS for NULL
    through : Option ℕ → ℕ → ℕ → Timespec → Log Call → ℕ × Log Call
    through none p clk ts log = (enosys, log)
    through (some fn) p clk ts log =
        let rc = reply log (Call.indirect fn p clk ts) in
        (rc, (Call.indirect fn p clk ts, rc) ∷ log)

    pub mutex_clocklock : ℕ → ℕ → Timespec → Symbols → Log Call → (ℕ × Log Call) × Symbols
    unfolding init through
    mutex_clocklock m clk ts s log =
        let s' = init s in (through s'.mutex_clocklock m clk ts log, s')

    pub rwlock_clockrdlock : ℕ → ℕ → Timespec → Symbols → Log Call → (ℕ × Log Call) × Symbols
    unfolding init through
    rwlock_clockrdlock rw clk ts s log =
        let s' = init s in (through s'.rwlock_clockrdlock rw clk ts log, s')

    pub rwlock_clockwrlock : ℕ → ℕ → Timespec → Symbols → Log Call → (ℕ × Log Call) × Symbols
    unfolding init through
    rwlock_clockwrlock rw clk ts s log =
        let s' = init s in (through s'.rwlock_clockwrlock rw clk ts log, s')

    pub sem_clockwait : ℕ → ℕ → Timespec → Symbols → Log Call → (ℕ × Log Call) × Symbols
    unfolding init through
    sem_clockwait s clk ts sy log = let s' = init sy in (through s'.sem_clockwait s clk ts log, s')
