-- ===== src/Bindings/Region/Create/Making.antt =====
-- SharedMemory.create of src/bindings/py_shm.c: what it leaves behind.
use mathlib.Core.Option
use posixipc.Prelude.{
  ℕ, ◌+◌, ◌-◌, ltb, ◌≡◌, refl, sym, arith, ◌⊎◌, inl, inr, Bool, true, false, Option, none, some, [],
  ◌∷◌, is_null, ◌!=◌, if◌then◌else◌,
}
use posixipc.Codes.{success}
use posixipc.Word.{u32_max}
use posixipc.Config.{Config}
use posixipc.Os.{
  Os, Watch, map_hit, name_hit, Event, Trace, Io, open_fds, mappings, objects, pure, ◌>>=◌, ◌>>◌,
}
use posixipc.Os
use posixipc.Os.Steps.{if-holds}
use posixipc.Layout.{header_bytes}
use posixipc.Shm.{Handle, reset_handle, state_ready, set_state, create, publish, close_handle}
use posixipc.Shm.Held.{handle_hit}
use posixipc.Shm.Create.{IsMapped, Settles, held, create-Settles}
use posixipc.Bindings.Errors.{Outcome, returned, raised, posixipc_err}
use posixipc.Bindings.Region.{Region}
use posixipc.Bindings.Region.Create.{
  object_of, raw_expect, posixipc_shmobj_from_core, publish_new, create_of_size, shm_create,
  size_in_range,
}

-- a new object, with no pin and open
abbrev pub Fresh : Bool → Region → Type 0
Fresh created r =
    (is_null r.core.map ≡ false)
    × (r.core.hdr ≡ r.core.map)
    × (r.pins ≡ 0)
    × (r.flags ≡ 0)
    × (r.created ≡ created)

-- the last event is the store of READY into the segment
abbrev pub Ready : Region → Trace → Type 0
Ready r [] = ⊥
Ready r (Event.store_state p n ∷ tr) = (r.core.map ≡ some p) × (n ≡ state_ready)
Ready r (e ∷ tr) = ⊥

-- A call that began with these counts of what is watched, where `alloc` says that Python has the
-- memory for the object: with an exception it leaves them as they were, or without that memory the
-- object of the name alone; an object that it returns has its mapping and the object of the name
-- more, the size of the header and of the payload, and is READY.
abbrev pub Makes : Bool → Watch → Os.Name → ℕ → ℕ → ℕ → ℕ → Outcome Region × Trace → Type 0
Makes alloc w name fds maps names size (raised e, tr) =
    (open_fds w tr ≡ fds)
    × (mappings w tr ≡ maps)
    × ((objects w tr ≡ names) ⊎ ((alloc ≡ false) × (objects w tr ≡ name_hit w name + names)))
Makes alloc w name fds maps names size (returned r, tr) =
    Fresh true r
    × (r.core.map_len ≡ header_bytes + size)
    × (open_fds w tr ≡ fds)
    × (mappings w tr ≡ handle_hit w r.core + maps)
    × (objects w tr ≡ name_hit w name + names)
    × Ready r tr

module _ (os : Os) (w : Watch) (fds maps names size : ℕ) where
  publish_new-Makes :
      (alloc : Bool) (name : Os.Name) (map hdr : Option ℕ) (len : ℕ) (copy : Option Os.Name)
      (tr : Trace)
      → IsMapped (header_bytes + size) (record { map = map; map_len = len; hdr = hdr; name = copy })
      → open_fds w tr ≡ fds
      → mappings w tr
        ≡ handle_hit w (record { map = map; map_len = len; hdr = hdr; name = copy }) + maps
      → objects w tr ≡ name_hit w name + names
      → Makes alloc w name fds maps names size (
          publish_new os alloc name
            (record { map = map; map_len = len; hdr = hdr; name = copy })
            tr)
  unfolding publish_new publish set_state posixipc_shmobj_from_core object_of close_handle
  publish_new-Makes alloc name map none len copy tr m f a o =
      absurd (ground (arith, m.map, m.header))
  publish_new-Makes alloc name none (some p) len copy tr m f a o = absurd (ground (arith, m.map))
  publish_new-Makes true name (some p) (some q) len copy tr m f a o =
      ((m.map, m.header, refl, refl, refl), m.len, f, a, o, (sym m.header, refl))
  publish_new-Makes false name (some p) (some q) len copy tr m f a o =
      (ground arith, ground arith, inr (refl, ground arith))

module _ (os : Os) (c : Config) (alloc : Bool) (local : Handle) (w : Watch) where
  created-Makes :
      (name : Os.Name) (size : ℕ) (tr : Trace) (rc : ℕ) (core : Option Handle) (tr' : Trace)
      → Settles w
          (some name)
          (open_fds w tr)
          (mappings w tr)
          (objects w tr)
          (header_bytes + size)
          (held ((rc, core), tr'))
      → Makes alloc w name (open_fds w tr) (mappings w tr) (objects w tr) size (
          (if rc != success
              then pure (raised (posixipc_err rc))
              else publish_new os alloc name (Option.get_or core local))
            tr')
  unfolding held
  created-Makes name size tr rc core tr' s =
      if-holds (Makes alloc w name (open_fds w tr) (mappings w tr) (objects w tr) size)
        (rc != success) (pure (raised (posixipc_err rc)))
        (publish_new os alloc name (Option.get_or core local)) tr'
        (λ bad. let left = s.refused (ground arith) in (s.closed, left.1, inl left.2))
        (λ fine. published core (s.made (ground arith)))
    where
      published :
          (core : Option Handle)
          → IsMapped (header_bytes + size) (Option.get_or core reset_handle)
            × (mappings w tr' ≡ handle_hit w (Option.get_or core reset_handle) + mappings w tr)
            × (objects w tr' ≡ name_hit w name + objects w tr)
          → Makes alloc w name
              (open_fds w tr)
              (mappings w tr)
              (objects w tr)
              size
              (publish_new os alloc name (Option.get_or core local) tr')
      published none (m, maps, names) = absurd (ground (arith, m.map))
      published (some h) (m, maps, names) =
          publish_new-Makes os w (open_fds w tr) (mappings w tr) (objects w tr) size alloc name
            h.map h.hdr h.map_len h.name tr' m s.closed maps names

  create_of_size-Makes :
      (name : Os.Name) (size : ℕ) (tr : Trace)
      → Makes alloc w name
          (open_fds w tr)
          (mappings w tr)
          (objects w tr)
          size
          (create_of_size os c alloc local name (some size) tr)
  unfolding create_of_size raw_expect
  create_of_size-Makes name size tr =
      let r = create os (some name) (some (raw_expect c size)) (some local) tr in
      created-Makes name size tr r.0.0 r.0.1 r.1
        (create-Settles os (raw_expect c size) w (some name) local tr)

  -- A create, for any size and whatever the system replies, closes the descriptor that it opened.
  -- With an exception it has given the mapping that it made to munmap, with its address and its
  -- length, and the name of the object that it created to shm_unlink, except where Python had no
  -- memory for its own object: then the name may stay. An object that it returns is open, without
  -- pins, and holds the one new mapping, of the new object of the name, which is of the size asked for
  -- and is READY.
  pub shm_create_lem :
      (name : Os.Name) (size : Option ℕ) (tr : Trace)
      → Makes alloc w name
          (open_fds w tr)
          (mappings w tr)
          (objects w tr)
          (Option.get_or size 0)
          (shm_create os c alloc local name size tr)
  unfolding shm_create size_in_range create_of_size
  shm_create_lem name none tr = (refl, refl, inl refl)
  shm_create_lem name (some size) tr =
      elim (ltb (u32_max - header_bytes) size)
        as (λ (b : Bool).
          Makes alloc w name (open_fds w tr) (mappings w tr) (objects w tr) size
            (create_of_size os c alloc local name (if b then none else some size) tr)) [
              | true ↦ (refl, refl, inl refl)
              | false ↦ create_of_size-Makes name size tr
            ]
