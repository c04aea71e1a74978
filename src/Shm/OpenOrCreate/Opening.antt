-- ===== src/Shm/OpenOrCreate/Opening.antt =====
-- posixipc_shm_open_or_create of src/core/posixipc_shm.c: what it leaves behind.
use posixipc.Prelude.{
  ℕ, zero, suc, ◌+◌, ◌≡◌, ◌≢◌, refl, arith, false, Option, none, some, is_null, ◌==◌, ◌!=◌,
}
use posixipc.Codes.{success, einval, enoent, eexist}
use posixipc.Os.{Os, Watch, Trace, Io, open_fds, mappings, objects, pure}
use posixipc.Os
use posixipc.Os.Steps.{if-holds}
use posixipc.Time.{Deadline}
use posixipc.Layout.{Expect}
use posixipc.Shm.{Handle, reset_handle, create}
use posixipc.Shm.Held.{some_hit}
use posixipc.Shm.Create.{Settles, held, create-Settles}
use posixipc.Shm.Attach.{attach}
use posixipc.Shm.Attach.Laws.{AttachesIn, attach-Attaches}
use posixipc.Shm.OpenOrCreate.{attach_seen, create_seen, open_loop, open_or_create}

-- a handle of a segment that is mapped, with its header at the start
abbrev pub IsOpen : Option Handle → Type 0
IsOpen none = ⊥
IsOpen (some h) = (is_null h.map ≡ false) × (h.hdr ≡ h.map)

-- The result of an open that began with these counts of descriptors and mappings: a failure leaves
-- them as they were, and a success adds the mapping that the handle holds.
abbrev pub Opens : Watch → ℕ → ℕ → Option (ℕ × Option Handle) × Trace → Type 0
Opens w fds maps (none, tr) = Unit {0}
Opens w fds maps (some (rc, h), tr) =
    (open_fds w tr ≡ fds)
    × (rc ≢ success → mappings w tr ≡ maps)
    × (rc ≡ success → IsOpen h × (mappings w tr ≡ some_hit w h + maps))

attach_null :
    (w : Watch) (tr : Trace)
    → AttachesIn w (open_fds w tr) (mappings w tr) (objects w tr) (some (einval, reset_handle), tr)
attach_null w tr = record {
  closed = refl;
  kept = refl;
  refused = λ _. (refl, refl);
  made = λ e. absurd (omega arith);
}

module _ (os : Os) (w : Watch) (fds maps : ℕ)
    (again : Option Handle → Io (Option (ℕ × Option Handle)))
    (opens : (h : Handle) (tr : Trace)
      → open_fds w tr ≡ fds
      → mappings w tr ≡ maps
      → Opens w fds maps (again (some h) tr)) where
  attach_seen-Opens :
      (f m n : ℕ) (r : Option (ℕ × Handle)) (tr : Trace)
      → f ≡ fds
      → m ≡ maps
      → AttachesIn w f m n (r, tr)
      → Opens w fds maps (attach_seen os again r tr)
  unfolding attach_seen
  attach_seen-Opens f m n none tr ef em a = tt
  attach_seen-Opens f m n (some (rc, h)) tr ef em a =
      if-holds (Opens w fds maps) (rc == success) (pure (some (rc, some h))) _ tr
        (λ fine.
          let got = a.made (ground arith) in
          (omega arith, λ bad. absurd (ground arith), λ _. ((got.0, got.1), omega arith)))
        λ bad.
          let left = a.refused (ground arith) in
          if-holds (Opens w fds maps) (rc != enoent) (pure (some (rc, some h))) (again (some h)) tr
            (λ _. (omega arith, λ _. omega arith, λ fine. absurd (ground arith)))
            λ _. opens h tr (omega arith) (omega arith)

  -- `name`, `e`, `d` and `fuel` are those of the attach
  create_seen-Opens :
      (fuel : ℕ) (name : Option Os.Name) (e : Expect) (d : Option Deadline) (f m n : ℕ) (rc : ℕ)
      (made : Option Handle) (tr : Trace)
      → f ≡ fds
      → m ≡ maps
      → Settles w name f m n e.total_size (held ((rc, made), tr))
      → Opens w fds maps (create_seen os again (attach os fuel name (some e) d) rc made tr)
  unfolding create_seen held attach
  create_seen-Opens fuel name e d f m n rc none tr ef em s =
      if-holds (Opens w fds maps) (rc == success) (pure (some (rc, none))) _ tr
        (λ fine. absurd (ground (arith, (s.made (ground arith)).0.map)))
        λ bad.
          let left = s.refused (ground arith) in
          if-holds (Opens w fds maps) (rc != eexist) (pure (some (rc, none))) _ tr
            (λ _. (omega arith, λ _. omega arith, λ fine. absurd (ground arith)))
            λ _.
              attach_seen-Opens (open_fds w tr) (mappings w tr) (objects w tr)
                (attach os fuel name (some e) d none tr).0 tr (omega (arith, s.closed))
                (omega arith) (attach_null w tr)
  create_seen-Opens fuel name e d f m n rc (some h) tr ef em s =
      if-holds (Opens w fds maps) (rc == success) (pure (some (rc, some h))) _ tr
        (λ fine.
          let got = s.made (ground arith) in
          (
            omega (arith, s.closed),
            λ bad. absurd (ground arith),
            λ _. (((got.0).map, (got.0).header), omega arith),
          ))
        λ bad.
          let left = s.refused (ground arith) in
          if-holds (Opens w fds maps) (rc != eexist) (pure (some (rc, some h))) _ tr
            (λ _. (omega arith, λ _. omega arith, λ fine. absurd (ground arith)))
            λ _.
              let r = attach os fuel name (some e) d (some h) tr in
              attach_seen-Opens (open_fds w tr) (mappings w tr) (objects w tr) r.0 r.1
                (omega (arith, s.closed)) (omega arith)
                (attach-Attaches os fuel (some e) d w name h tr)

module _ (os : Os) (fuel : ℕ) (name : Option Os.Name) (e : Expect) (d : Option Deadline) (w : Watch)
    (fds maps : ℕ) where
  loop-Opens :
      (tries : ℕ) (h : Handle) (tr : Trace)
      → open_fds w tr ≡ fds
      → mappings w tr ≡ maps
      → Opens w fds maps (open_loop os fuel tries name (some e) d (some h) tr)
  unfolding open_loop held
  loop-Opens zero h tr f m = (f, λ _. m, λ fine. absurd (omega arith))
  loop-Opens (suc tries) h tr f m =
      let r = create os name (some e) (some h) tr in
      create_seen-Opens os w fds maps (open_loop os fuel tries name (some e) d) (loop-Opens tries)
        fuel name e d (open_fds w tr) (mappings w tr) (objects w tr) r.0.0 r.0.1 r.1 f m
        (create-Settles os e w name h tr)

  -- An open or create that ends, whatever the system and other processes do and however many of its
  -- rounds it takes, keeps no descriptor; where it fails it leaves no mapping, and where it succeeds
  -- one more, which the handle holds with its header at the start.
  pub open_or_create-Opens :
      (h : Handle) (tr : Trace)
      → open_fds w tr ≡ fds
      → mappings w tr ≡ maps
      → Opens w fds maps (open_or_create os fuel name (some e) d (some h) tr)
  unfolding open_or_create
  open_or_create-Opens h tr f m = loop-Opens 32 h tr f m
