-- ===== src/Examples/Wrappers.antt =====
-- The wrappers of the C library, where every call succeeds or the first waits are interrupted.
use posixipc.Prelude.{
  ℕ, zero, suc, ◌+◌, ◌<◌, ◌≡◌, refl, arith, true, false, none, some, [], ◌∷◌, ltb, length,
  if◌then◌else◌, List,
}
use posixipc.Codes.{success, eintr}
use posixipc.Time.{Deadline}
use posixipc.Calls.{Reply}
use posixipc.Align.Laws.{RoundsUp}
use posixipc.Mutex.{mutex_init}
use posixipc.Rwlock.{rwlock_clock}
use posixipc.Cond.{cond_init}
use posixipc.Barrier
use posixipc.Barrier.{barrier_init, party_of}
use posixipc.Sem.{sem_clock}
use posixipc.Futex
use posixipc.Futex.{futex_wait}
use posixipc.Futex.Laws.{interrupted, woken, futex_wait-retries}
use posixipc.Futexq.{FutexqView, FutexqMemory}
use posixipc.Memfd.{zeroed, closed, memfd_create, memfd_close}
use posixipc.Os.{Watch}
use posixipc.Memfd.Laws.{open_fds, mappings, memfd_create-close}
use posixipc.Examples.Rings.{three, round}

-- a library whose calls all succeed
abbrev willing : {C : Type 0} → Reply C
willing log c = 0

mutex-succeeds : (mutex_init willing (some 64) (some 35) []).0 ≡ success
unfolding mutex_init
mutex-succeeds = refl

abbrev at_five : Deadline
at_five = record { clk = 1; ts = record { sec = 5; nsec = 0 } }

monotonic : at_five.clk ≡ rwlock_clock true
unfolding rwlock_clock
monotonic = refl

sem-monotonic : at_five.clk ≡ sem_clock true
unfolding sem_clock
sem-monotonic = refl

cond-succeeds : (cond_init willing true (some 64) (some 66) []).0 ≡ success
unfolding cond_init
cond-succeeds = refl

abbrev party : Barrier.Party
party = record { flags = 2; parties = 4 }

barrier-succeeds : (barrier_init willing true true (some 64) (some party) []).0 ≡ success
unfolding barrier_init
barrier-succeeds = refl

-- a signal interrupts the first two waits
abbrev restless : Reply Futex.Call
restless log c = if ltb (length log) 2 then eintr else 0

abbrev waiting : Futex.Call
waiting = Futex.Call.wait 64 7 none true

restless-signals : (i : ℕ) → i < 2 → restless (interrupted waiting i []) waiting ≡ eintr
restless-signals zero h = refl
restless-signals (suc zero) h = refl
restless-signals (suc (suc i)) h = absurd (omega arith)

futex_wait-retries_example : futex_wait restless 5 (some 64) 7 none false [] ≡ (
  some (woken (restless (interrupted waiting 2 []) waiting)),
  (waiting, restless (interrupted waiting 2 []) waiting) ∷ interrupted waiting 2 [],
)
futex_wait-retries_example =
    futex_wait-retries restless 64 7 2 5 false [] restless-signals (omega arith) (omega arith)

prefix_64 : RoundsUp 8 64 64
prefix_64 = record { multiple = refl; above = omega arith; near = omega arith }

abbrev block_at : ℕ
block_at = 4096

abbrev queue : FutexqView
queue = record { not_full = 4096; not_empty = 4100; view = three }

abbrev dirty : FutexqMemory
dirty = record { not_full = 9; not_empty = 9; ring = round }

-- "/q", and the descriptors and addresses that calls give
abbrev slash_q : List ℕ
slash_q = 47 ∷ 113 ∷ []

abbrev given : {C : Type 0} → Reply C
given log c = 7 + length log

-- the descriptor and the mapping that come first
abbrev first_fd : Watch
first_fd = record { fd = 7; address = 9; len = 4096; name = [] }

memfd_create-succeeds :
    (memfd_create willing given true (some slash_q) 4096 (some zeroed) []).0.0 ≡ success
unfolding memfd_create
memfd_create-succeeds = refl

memfd_create-close_example :
    let (r, log) = memfd_create willing given true (some slash_q) 4096 (some zeroed) [] in
    let (c, log') = memfd_close willing given r.1 log in
    (c.1 ≡ some closed)
    × (open_fds willing given first_fd log' ≡ 0)
    × (mappings willing given first_fd log' ≡ 0)
memfd_create-close_example =
    memfd_create-close willing given first_fd (some slash_q) 4096 zeroed [] memfd_create-succeeds
