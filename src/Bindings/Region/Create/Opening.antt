-- ===== src/Bindings/Region/Create/Opening.antt =====
-- How a segment object is attached, or opened or created, in src/bindings/py_shm.c: what it leaves
-- behind.
use posixipc.Prelude.{
  ℕ, ◌+◌, ◌-◌, ltb, ◌≡◌, refl, arith, Bool, true, false, Option, none, some, ◌∷◌, is_null, ◌==◌,
  ◌!=◌, if◌then◌else◌,
}
use posixipc.Codes.{success}
use posixipc.Word.{u32_max}
use posixipc.Config.{Config}
use posixipc.Os.{
  Os, Watch, map_hit, Event, Trace, Io, open_fds, mappings, objects, pure, ◌>>=◌, ◌>>◌,
}
use posixipc.Os
use posixipc.Os.Steps.{if-holds}
use posixipc.Time.{Deadline, deadline_from_seconds, now}
use posixipc.Layout.{header_bytes}
use posixipc.Shm.{Handle, state_initializing, set_state, publish, close_handle}
use posixipc.Shm.Held.{handle_hit}
use posixipc.Shm.Attach.{attach}
use posixipc.Shm.Attach.Laws.{AttachesIn, attach-Attaches}
use posixipc.Shm.OpenOrCreate.{open_or_create}
use posixipc.Shm.OpenOrCreate.Opening.{Opens, open_or_create-Opens}
use posixipc.Bindings.Errors.{Outcome, returned, raised, posixipc_err}
use posixipc.Bindings.Acquire.{Value}
use posixipc.Bindings.Region.Create.Making.{Fresh}
use posixipc.Bindings.Region.{Region}
use posixipc.Bindings.Region.Create.{
  object_of, raw_expect, posixipc_shmobj_from_core, publish_new, open_object, attach_object,
  attach_until, shm_attach_unchecked, is_initializing, opened, open_until, open_sized,
  shm_open_or_create, size_in_range, timeout_deadline, deadline_from_timeout, deadline_parsed,
  parse_timeout_seconds,
}

-- An object that was attached or created: open, without pins, with one mapping more; an exception
-- leaves the mappings as they were. Neither keeps a descriptor.
abbrev pub Opened : Watch → ℕ → ℕ → Option (Outcome Region) × Trace → Type 0
Opened w fds maps (none, tr) = Unit {0}
Opened w fds maps (some (raised e), tr) = (open_fds w tr ≡ fds) × (mappings w tr ≡ maps)
Opened w fds maps (some (returned r), tr) =
    Fresh r.created r × (open_fds w tr ≡ fds) × (mappings w tr ≡ handle_hit w r.core + maps)

module _ (os : Os) (w : Watch) (fds maps : ℕ) where
  abbrev Kept : {A : Type 0} → A × Trace → Type 0
  Kept (a, tr) = (open_fds w tr ≡ fds) × (mappings w tr ≡ maps)

  from_timeout-Kept :
      (v : Value) (tr : Trace) → Kept (tt, tr) → Kept (deadline_from_timeout os v tr)
  unfolding deadline_from_timeout deadline_parsed parse_timeout_seconds deadline_from_seconds now
  from_timeout-Kept v tr h = ground arith

  timeout-Kept :
      (five v : Option Value) (tr : Trace) → Kept (tt, tr) → Kept (timeout_deadline os five v tr)
  unfolding timeout_deadline
  timeout-Kept five (some v) tr h = from_timeout-Kept v tr h
  timeout-Kept none none tr h = h
  timeout-Kept (some five) none tr h = from_timeout-Kept five tr h

  -- a close takes the mapping of the handle back
  close-Kept :
      (map hdr : Option ℕ) (len : ℕ) (name : Option Os.Name) (tr : Trace)
      → is_null map ≡ false
      → hdr ≡ map
      → let core : Handle = record { map = map; map_len = len; hdr = hdr; name = name } in
        open_fds w tr ≡ fds
        → mappings w tr ≡ handle_hit w core + maps
        → Kept (close_handle os (some core) tr)
  unfolding close_handle
  close-Kept none hdr len name tr m h f e = absurd (ground arith)
  close-Kept (some p) hdr len name tr m h f e = (ground arith, ground arith)

  from_core-Opened :
      (alloc : Bool) (core : Handle) (created : Bool) (tr : Trace)
      → (is_null core.map ≡ false) × (core.hdr ≡ core.map)
      → open_fds w tr ≡ fds
      → mappings w tr ≡ handle_hit w core + maps
      → let (r, tr') = posixipc_shmobj_from_core os alloc core created tr in
        Opened w fds maps (some r, tr')
  unfolding posixipc_shmobj_from_core object_of
  from_core-Opened true core created tr (m, h) f e = ((m, h, refl, refl, refl), f, e)
  from_core-Opened false core created tr (m, h) f e =
      close-Kept core.map core.hdr core.map_len core.name tr m h f e

  publish_new-Opened :
      (alloc : Bool) (name : Os.Name) (map hdr : Option ℕ) (len : ℕ) (copy : Option Os.Name)
      (tr : Trace)
      → (is_null map ≡ false) × (hdr ≡ map)
      → open_fds w tr ≡ fds
      → mappings w tr
        ≡ handle_hit w (record { map = map; map_len = len; hdr = hdr; name = copy }) + maps
      → let core : Handle = record { map = map; map_len = len; hdr = hdr; name = copy } in
        let (r, tr') = publish_new os alloc name core tr in Opened w fds maps (some r, tr')
  unfolding publish_new publish set_state posixipc_shmobj_from_core object_of close_handle
  publish_new-Opened alloc name map none len copy tr (m, h) f e = absurd (ground arith)
  publish_new-Opened alloc name none (some p) len copy tr (m, h) f e = absurd (ground arith)
  publish_new-Opened true name (some q) (some p) len copy tr (m, h) f e =
      ((m, h, refl, refl, refl), f, e)
  publish_new-Opened false name (some q) (some p) len copy tr (m, h) f e =
      (ground arith, ground arith)

  opened-Opened :
      (alloc : Bool) (name : Os.Name) (map hdr : Option ℕ) (len : ℕ) (copy : Option Os.Name)
      (tr : Trace)
      → (is_null map ≡ false) × (hdr ≡ map)
      → open_fds w tr ≡ fds
      → mappings w tr
        ≡ handle_hit w (record { map = map; map_len = len; hdr = hdr; name = copy }) + maps
      → let core : Handle = record { map = map; map_len = len; hdr = hdr; name = copy } in
        let (r, tr') = opened os alloc name core tr in Opened w fds maps (some r, tr')
  unfolding opened is_initializing
  opened-Opened alloc name map none len copy tr (m, h) f e = absurd (ground arith)
  opened-Opened alloc name map (some p) len copy tr (m, h) f e =
      let core : Handle = record { map = map; map_len = len; hdr = some p; name = copy } in
      let loaded = Event.load_state p (os.load_state tr p) ∷ tr in
      if-holds {B = Outcome Region} (λ out. Opened w fds maps (some out.0, out.1))
        (os.load_state tr p == state_initializing) (publish_new os alloc name core)
        (posixipc_shmobj_from_core os alloc core false) loaded
        (λ _. publish_new-Opened alloc name map (some p) len copy loaded (m, h) f e)
        λ _. from_core-Opened alloc core false loaded (m, h) f e

module _ (os : Os) (c : Config) (alloc : Bool) (local : Handle) (fuel : ℕ) (w : Watch)
    (fds maps : ℕ) where
  attached-Opened :
      (f m n : ℕ) (r : Option (ℕ × Handle)) (tr : Trace)
      → f ≡ fds
      → m ≡ maps
      → AttachesIn w f m n (r, tr)
      → Opened w fds maps (attach_object os alloc r tr)
  unfolding attach_object
  attached-Opened f m n none tr ef em a = tt
  attached-Opened f m n (some (rc, h)) tr ef em a =
      if-holds (Opened w fds maps) (rc != success) (pure (some (raised (posixipc_err rc)))) _ tr
        (λ bad. let left = a.refused (ground arith) in (omega (arith, a.closed), omega arith))
        λ fine.
          let got = a.made (ground arith) in
          from_core-Opened os w fds maps alloc h false tr (got.0, got.1) (omega (arith, a.closed))
            (omega arith)

  attach_until-Opened :
      (name : Os.Name) (dl : Outcome (Option Deadline)) (tr : Trace)
      → Kept os w fds maps (tt, tr)
      → Opened w fds maps (attach_until os c alloc local fuel name dl tr)
  unfolding attach_until
  attach_until-Opened name (raised e) tr h = h
  attach_until-Opened name (returned dl) tr (f, m) =
      let r = attach os fuel (some name) none dl (some local) tr in
      attached-Opened (open_fds w tr) (mappings w tr) (objects w tr) r.0 r.1 f m
        (attach-Attaches os fuel none dl w (some name) local tr)

  -- An attach without a check, whatever the timeout and whatever the system and other processes do:
  -- if it ends, it keeps no descriptor; with an exception it has given every mapping that it made to
  -- munmap, with its address and its length, and an object that it returns is open, without pins, and
  -- holds the one new mapping.
  pub shm_attach_lem :
      (five : Option Value) (name : Os.Name) (timeout : Option Value) (tr : Trace)
      → Kept os w fds maps (tt, tr)
      → Opened w fds maps (shm_attach_unchecked os c alloc local fuel five name timeout tr)
  unfolding shm_attach_unchecked
  shm_attach_lem five name timeout tr h =
      let r = timeout_deadline os five timeout tr in
      attach_until-Opened name r.0 r.1 (timeout-Kept os w fds maps five timeout tr h)

  open_object-Opened :
      (name : Os.Name) (r : Option (ℕ × Option Handle)) (tr : Trace)
      → Opens w fds maps (r, tr)
      → Opened w fds maps (open_object os alloc name r tr)
  unfolding open_object
  open_object-Opened name none tr a = tt
  open_object-Opened name (some (rc, none)) tr (f, left, got) = (f, left (λ fine. (got fine).0))
  open_object-Opened name (some (rc, some core)) tr (f, left, got) =
      if-holds (Opened w fds maps) (rc != success) (pure (some (raised (posixipc_err rc)))) _ tr
        (λ bad. (f, left (ground arith)))
        λ fine.
          let (o, m) = got (ground arith) in
          opened-Opened os w fds maps alloc name core.map core.hdr core.map_len core.name tr o f m

  open_until-Opened :
      (name : Os.Name) (size : ℕ) (dl : Outcome (Option Deadline)) (tr : Trace)
      → Kept os w fds maps (tt, tr)
      → Opened w fds maps (open_until os c alloc local fuel name size dl tr)
  unfolding open_until
  open_until-Opened name size (raised e) tr h = h
  open_until-Opened name size (returned dl) tr (f, m) =
      let r = open_or_create os fuel (some name) (some (raw_expect c size)) dl (some local) tr in
      open_object-Opened name r.0 r.1
        (open_or_create-Opens os fuel (some name) (raw_expect c size) dl w fds maps local tr f m)

  -- An open_or_create, whatever its size and its timeout and whatever the system and other processes
  -- do, also where Python has no memory for its object: if it ends, it keeps no descriptor; with an
  -- exception it has given every mapping that it made to munmap, with its address and its length, and
  -- an object that it returns is open, without pins, and holds the one new mapping.
  pub shm_open_or_create_lem :
      (five : Option Value) (name : Os.Name) (size : Option ℕ) (timeout : Option Value) (tr : Trace)
      → Kept os w fds maps (tt, tr)
      → Opened w fds maps (shm_open_or_create os c alloc local fuel five name size timeout tr)
  unfolding shm_open_or_create size_in_range open_sized
  shm_open_or_create_lem five name none timeout tr h = h
  shm_open_or_create_lem five name (some size) timeout tr h =
      let r = timeout_deadline os five timeout tr in
      elim (ltb (u32_max - header_bytes) size)
        as (λ (b : Bool).
          Opened w fds maps (
            open_sized os c alloc local fuel five name (if b then none else some size) timeout
              tr)) [
                | true ↦ h
                | false ↦
                    open_until-Opened name size r.0 r.1
                      (timeout-Kept os w fds maps five timeout tr h)
              ]
