-- ===== src/Examples/Objects.antt =====
-- Objects from Python: a segment that threads pin and close, a futex queue, a futex, a semaphore and
-- an array of mutexes.
use posixipc.Prelude.{
  ℕ, ◌<◌, ◌≡◌, refl, arith, Bool, true, false, not, none, some, List, [], ◌∷◌, is_null, ltb, ◌&&◌,
  if◌then◌else◌,
}
use posixipc.Codes.{eintr}
use posixipc.Os.{Os, Event}
use posixipc.Calls.{Reply}
use posixipc.Futex
use posixipc.Shm.{reset_handle}
use posixipc.Bindings.Errors.{Raised, returned, raised}
use posixipc.Bindings.Region.{Region, set_closed, posixipc_shmobj_close}
use posixipc.Bindings.Region.Create.{shm_create, shm_open_or_create}
use posixipc.Bindings.Region.Create.Making.{Makes, shm_create_lem}
use posixipc.Bindings.Region.Create.Opening.{Opened, shm_open_or_create_lem}
use posixipc.Bindings.Region.Closing.{open_region, unmapped, shmobj_close_lem}
use posixipc.Bindings.Region.Threads.{Threads, start, holders, Step, Reach}
use posixipc.Bindings.Region.Threads.Safety.{pinned_is_mapped}
use posixipc.Bindings.Region.Threads.Race.{two_closes_unmap}
use posixipc.Bindings.FutexObject.{FutexObject, wait_opts}
use posixipc.Bindings.FutexObject
use posixipc.Bindings.FutexObject.Interrupted.{asked, wait_gives_up}
use posixipc.Examples.Segments.{linux, crowded, ticking, watched}

-- a system that replies well to each call
abbrev roomy : Os
roomy = record crowded { malloc = λ tr n. some 8 }

abbrev named : List ℕ
named = 47 ∷ 97 ∷ []

shm_create_lem_example :
    Makes true watched named 0 0 0 10 (shm_create roomy linux true reset_handle named (some 10) [])
shm_create_lem_example = shm_create_lem roomy linux true reset_handle watched named (some 10) []

shm_open_or_create_lem_example :
    Opened watched 0 0
      (shm_open_or_create roomy linux true reset_handle 9 none named (some 10) none [])
shm_open_or_create_lem_example =
    shm_open_or_create_lem roomy linux true reset_handle 9 watched 0 0 none named (some 10) none []
      (refl, refl)

-- a segment at 4096 that is pinned twice, closed without force
shmobj_close_lem_example :
    posixipc_shmobj_close crowded false (open_region 4096 106 (some named) 2 true, []) ≡ (
      if not false && ltb 0 2
      then (raised (some Raised.buffer_error), (open_region 4096 106 (some named) 2 true, []))
      else unmapped
          (open_region 4096 106 (some named) 2 true)
          (crowded.munmap [] 4096 106)
          (Event.munmap 4096 106 (crowded.munmap [] 4096 106) ∷ []))
shmobj_close_lem_example = shmobj_close_lem crowded 4096 106 (some named) 2 true [] false

abbrev segment : Region
segment = open_region 4096 106 (some named) 0 true

-- a thread that pins, while another begins to close
abbrev two_threads : Threads
two_threads = record (start segment []) {
  region = open_region 4096 106 (some named) 1 true;
  pinned = 1;
  opening = 1;
}

two_threads-Reach : Reach crowded 1 (start segment []) two_threads
unfolding posixipc.Bindings.Region.shm_is_closed posixipc.Bindings.Region.add_pin
two_threads-Reach =
    Reach.next
      (Reach.next (Reach.next Reach.here (Step.pin_add (omega arith))) (Step.pin_given refl refl))
      (Step.close_open (omega arith) refl)

pinned_is_mapped_example :
    ((two_threads.region).pins ≡ holders two_threads)
    × (0 < two_threads.pinned → is_null (two_threads.region).core.map ≡ false)
pinned_is_mapped_example =
    pinned_is_mapped crowded segment [] {u = two_threads} refl refl refl two_threads-Reach

two_closes_unmap_example :
    (u : Threads) × Reach crowded 2 (start segment []) u
    × (u.pinned ≡ 1)
    × (is_null (u.region).core.map ≡ true)
two_closes_unmap_example = two_closes_unmap crowded (some named) 4096 106 true [] refl

-- a futex whose waits a signal interrupts
abbrev restless : FutexObject → Reply Futex.Call
restless o log c = eintr

abbrev still : FutexObject.State → Bool × FutexObject.State
still s = (false, s)

abbrev word : FutexObject
word = record { address = 64; word = 5; flags = 16; futexes = [] }

wait_gives_up_example :
    wait_opts ticking restless still 3 5
      (returned (record {
        timeout = none;
        zero_timeout = true;
        positive_timeout = false;
        blocking = true;
        interruptible = false;
      }))
      (word, [])
    ≡ (some (returned false), (record word { futexes = (asked word 5, eintr) ∷ [] }, []))
wait_gives_up_example = wait_gives_up ticking restless still 3 5 true false word [] refl
