-- ===== src/Bindings/Region/Threads/Race.antt =====
-- Two closes of one segment at the same time.
use posixipc.Prelude.{◌∷◌, ℕ, ◌≡◌, refl, arith, Bool, true, Option, some, is_null}
use posixipc.Codes.{success}
use posixipc.Os.{Os, Trace, Event, Ret, ok}
use posixipc.Os
use posixipc.Shm.{reset_handle, close_handle}
use posixipc.Bindings.Region.{Region, shm_is_closed, add_pin, set_closed, clear_closed}
use posixipc.Bindings.Region.Threads.{Threads, start, Step, Reach}

module _ (os : Os) (name : Option Os.Name) (p len : ℕ) (created : Bool) (tr : Trace) where
  abbrev open_region : Region
  open_region = record {
    core = record { map = some p; map_len = len; hdr = some p; name = name };
    pins = 0;
    flags = 0;
    created = created;
  }

  unmaps :
      os.munmap tr p len ≡ ok tt
      → close_handle os (some (open_region.core)) tr
        ≡ ((success, some reset_handle), Event.munmap p len (ok tt) ∷ tr)
  unfolding close_handle
  unmaps e = rw e refl

  -- Where two threads may be in a close at a time, threads that start from an open segment without
  -- pins reach a state in which a thread has pinned it and it is not mapped, if its munmap succeeds.
  pub two_closes_unmap :
      os.munmap tr p len ≡ ok tt
      → (u : Threads) × Reach os 2 (start open_region tr) u
        × (u.pinned ≡ 1)
        × (is_null (u.region).core.map ≡ true)
  unfolding shm_is_closed add_pin set_closed clear_closed
  two_closes_unmap e = (
    _,
    Reach.next
        (Reach.next
          (Reach.next
            (Reach.next
              (Reach.next
                (Reach.next
                  (Reach.next
                    (Reach.next
                      (Reach.next (Reach.next Reach.here (Step.close_open (omega arith) refl))
                        (Step.close_open (omega arith) refl))
                      (Step.close_mark refl))
                    (Step.close_unpinned refl refl))
                  (Step.pin_add (omega arith)))
                (Step.close_mark refl))
              (Step.close_pinned refl (omega arith)))
            (Step.close_refused refl))
          (Step.pin_given refl refl))
        (Step.close_unmapped refl (unmaps e)),
    refl,
    refl,
  )
