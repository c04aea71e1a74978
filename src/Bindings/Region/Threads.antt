-- ===== src/Bindings/Region/Threads.antt =====
-- Threads that pin, unpin and close one segment object of src/bindings/py_shm.c at a time: a step is
-- one atomic operation of `posixipc_shmobj_pin` or `posixipc_shmobj_close`. Threads at the same place
-- are alike, so a state has the number of them at each place.
pub mod Safety
pub mod Race
use posixipc.Prelude.{ℕ, suc, ◌+◌, ◌<◌, ◌≡◌, ◌≢◌, true, false, some}
use posixipc.Codes.{success}
use posixipc.Word.{u32_mod}
use posixipc.Os.{Os, Trace}
use posixipc.Bindings.Region.{
  Region, shm_is_closed, add_pin, posixipc_shmobj_unpin, set_closed, clear_closed,
}
use posixipc.Shm.{Handle, close_handle}

pub record Threads : Type 0 where
  pub region : Region
  pub trace : Trace
  -- in `posixipc_shmobj_pin` behind the add; with a pin that was given; and behind the test, the
  -- object closed
  pub pinning : ℕ
  pub pinned : ℕ
  pub undoing : ℕ
  -- In `posixipc_shmobj_close`: behind the first test; behind the store of CLOSED; behind the test of
  -- the pins, some held; behind that test, none held; and behind a munmap that failed
  pub opening : ℕ
  pub marked : ℕ
  pub refusing : ℕ
  pub unmapping : ℕ
  pub failing : ℕ

-- no thread in any of the functions
abbrev pub start : Region → Trace → Threads
start r tr = record {
  region = r;
  trace = tr;
  pinning = 0;
  pinned = 0;
  undoing = 0;
  opening = 0;
  marked = 0;
  refusing = 0;
  unmapping = 0;
  failing = 0;
}

abbrev pub closers : Threads → ℕ
closers t = t.opening + t.marked + t.refusing + t.unmapping + t.failing

abbrev pub holders : Threads → ℕ
holders t = t.pinning + t.pinned + t.undoing

-- At most `limit` threads are in a close at a time, and fewer than 2^32 have added a pin.
pub data Step (os : Os) (limit : ℕ) : Threads → Threads → Type 0 where
  pin_add :
      {t : Threads}
      → suc (holders t) < u32_mod
      → Step os limit t (record t { region = add_pin t.region; pinning = suc t.pinning })
  pin_given :
      {t : Threads} {n : ℕ}
      → t.pinning ≡ suc n
      → shm_is_closed t.region ≡ false
      → Step os limit t (record t { pinning = n; pinned = suc t.pinned })
  pin_refused :
      {t : Threads} {n : ℕ}
      → t.pinning ≡ suc n
      → shm_is_closed t.region ≡ true
      → Step os limit t (record t { pinning = n; undoing = suc t.undoing })
  pin_undone :
      {t : Threads} {n : ℕ}
      → t.undoing ≡ suc n
      → Step os limit t (record t { region = posixipc_shmobj_unpin t.region; undoing = n })
  unpin :
      {t : Threads} {n : ℕ}
      → t.pinned ≡ suc n
      → Step os limit t (record t { region = posixipc_shmobj_unpin t.region; pinned = n })
  close_again :
      {t : Threads}
      → shm_is_closed t.region ≡ true
      → Step os limit t (record t { region = set_closed t.region })
  close_open :
      {t : Threads}
      → closers t < limit
      → shm_is_closed t.region ≡ false
      → Step os limit t (record t { opening = suc t.opening })
  close_mark :
      {t : Threads} {n : ℕ}
      → t.opening ≡ suc n
      → Step os limit t
          (record t { region = set_closed t.region; opening = n; marked = suc t.marked })
  close_pinned :
      {t : Threads} {n : ℕ}
      → t.marked ≡ suc n
      → 0 < (t.region).pins
      → Step os limit t (record t { marked = n; refusing = suc t.refusing })
  close_unpinned :
      {t : Threads} {n : ℕ}
      → t.marked ≡ suc n
      → (t.region).pins ≡ 0
      → Step os limit t (record t { marked = n; unmapping = suc t.unmapping })
  close_refused :
      {t : Threads} {n : ℕ}
      → t.refusing ≡ suc n
      → Step os limit t (record t { region = clear_closed t.region; refusing = n })
  close_unmapped :
      {t : Threads} {n : ℕ} {core : Handle} {tr : Trace}
      → t.unmapping ≡ suc n
      → close_handle os (some ((t.region).core)) t.trace ≡ ((success, some core), tr)
      → Step os limit t
          (record t { region = record (t.region) { core = core }; trace = tr; unmapping = n })
  close_failed :
      {t : Threads} {n rc : ℕ} {core : Handle} {tr : Trace}
      → t.unmapping ≡ suc n
      → rc ≢ success
      → close_handle os (some ((t.region).core)) t.trace ≡ ((rc, some core), tr)
      → Step os limit t (record t {
        region = record (t.region) { core = core };
        trace = tr;
        unmapping = n;
        failing = suc t.failing;
      })
  close_restored :
      {t : Threads} {n : ℕ}
      → t.failing ≡ suc n
      → Step os limit t (record t { region = clear_closed t.region; failing = n })

pub data Reach (os : Os) (limit : ℕ) (s : Threads) : Threads → Type 0 where
  here : Reach os limit s s
  next : {t u : Threads} → Reach os limit s t → Step os limit t u → Reach os limit s u
