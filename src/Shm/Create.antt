-- ===== src/Shm/Create.antt =====
-- posixipc_shm_create of src/core/posixipc_shm.c: what it leaves behind.
use posixipc.Prelude.{
  ap, ℕ, suc, ◌+◌, ◌-◌, ◌≡◌, ◌≢◌, refl, arith, false, not, Option, none, some, is_null, ◌!=◌, ltb,
}
use posixipc.Codes.{success, einval, eacces}
use posixipc.Layout.{Expect, header_bytes}
use posixipc.Os.{
  Os, Ret, ok, fail, Watch, fd_hit, map_hit, name_hit, Stat, Header, Event, Trace, Io, open_fds,
  mappings, objects, pure, ◌>>=◌, attempt,
}
use posixipc.Os
use posixipc.Os.Steps.{attempt-holds, if-holds}
use posixipc.Shm.Held.{handle_hit, named_hit}
use posixipc.Shm.Name.{validate_name}
use mathlib.Core.Option
use posixipc.Shm.{
  shm_create, ftruncate, Handle, reset_handle, stat_permitted, create_fail, create_stored,
  create_mapped, create_sized, create_permitted, create_opened, create,
}

-- a handle of `total` bytes, with its header at their start and a name
pub record IsMapped (total : ℕ) (h : Handle) : Type 0 where
  pub map : is_null h.map ≡ false
  pub header : h.hdr ≡ h.map
  pub len : h.map_len ≡ total
  pub name : is_null h.name ≡ false

-- The result of a create that began with these counts of what is watched: a failure leaves an empty
-- handle and the counts; a success adds the handle's mapping and the object of the name, and keeps no
-- descriptor.
pub record Settles (w : Watch) (name : Option Os.Name) (fds maps names total : ℕ)
    (out : (ℕ × Handle) × Trace) : Type 0 where
  pub closed : open_fds w out.1 ≡ fds
  pub refused :
      out.0.0 ≢ success
      → (out.0.1 ≡ reset_handle) × (mappings w out.1 ≡ maps) × (objects w out.1 ≡ names)
  pub made :
      out.0.0 ≡ success
      → IsMapped total out.0.1
        × (mappings w out.1 ≡ handle_hit w out.0.1 + maps)
        × (objects w out.1 ≡ named_hit w name + names)

module _ (os : Os) (name : Os.Name) (w : Watch) (fds maps names total : ℕ) (tr : Trace) (rc : ℕ)
    (bad : rc ≢ success) (created : objects w tr ≡ name_hit w name + names) where
  open-fail :
      (fd : ℕ)
      → open_fds w tr ≡ fd_hit w fd + fds
      → mappings w tr ≡ maps
      → Settles w (some name) fds maps names total (create_fail os (some fd) none name total rc tr)
  unfolding create_fail
  open-fail fd f m = record {
    closed = omega arith;
    refused = λ _. (refl, omega arith, omega arith);
    made = λ e. absurd (bad e);
  }

  mapped-fail :
      (p : ℕ)
      → open_fds w tr ≡ fds
      → mappings w tr ≡ map_hit w p total + maps
      → Settles w (some name) fds maps names total (create_fail os none (some p) name total rc tr)
  unfolding create_fail
  mapped-fail p f m = record {
    closed = omega arith;
    refused = λ _. (refl, omega arith, omega arith);
    made = λ e. absurd (bad e);
  }

less_one : (n : ℕ) {a b : ℕ} → a ≡ n + b → a - n ≡ b
less_one n e = omega arith

positive : (e : ℕ) → suc e ≢ success
positive e q = absurd (omega arith)

module _ (os : Os) (name : Os.Name) (expect : Expect) (w : Watch) (fds maps names : ℕ) where
  stored-Settles :
      (p : ℕ) (tr : Trace)
      → open_fds w tr ≡ fds
      → mappings w tr ≡ map_hit w p expect.total_size + maps
      → objects w tr ≡ name_hit w name + names
      → Settles w (some name) fds maps names expect.total_size (create_stored os name expect p tr)
  unfolding create_stored
  stored-Settles p tr f m o = record {
    closed = ground arith;
    refused = λ bad. (ground arith, ground arith, ground arith);
    made = λ fine. (
      record { map = ground arith; header = ground arith; len = ground arith; name = ground arith },
      ground arith,
      ground arith,
    );
  }

  mapped-Settles :
      (fd p : ℕ) (tr : Trace)
      → open_fds w tr ≡ fd_hit w fd + fds
      → mappings w tr ≡ map_hit w p expect.total_size + maps
      → objects w tr ≡ name_hit w name + names
      → Settles w
          (some name)
          fds
          maps
          names
          expect.total_size
          (create_mapped os name expect fd p tr)
  unfolding create_mapped
  mapped-Settles fd p tr₀ f m o =
      attempt-holds (Settles w (some name) fds maps names expect.total_size) (λ t. os.close t fd)
        (Event.close fd) (create_fail os none (some p) name expect.total_size)
        (λ _. create_stored os name expect p) tr₀
        (λ e.
          mapped-fail os name w fds maps names _ _ _ (positive e) o p (less_one (fd_hit w fd) f) m)
        λ _. stored-Settles p _ (less_one (fd_hit w fd) f) m o

  sized-Settles :
      (fd : ℕ) (tr : Trace)
      → open_fds w tr ≡ fd_hit w fd + fds
      → mappings w tr ≡ maps
      → objects w tr ≡ name_hit w name + names
      → Settles w
          (some name)
          fds
          maps
          names
          expect.total_size
          (create_sized os name expect fd tt tr)
  unfolding create_sized
  sized-Settles fd tr₀ f m o =
      attempt-holds (Settles w (some name) fds maps names expect.total_size)
        (λ t. os.mmap t fd expect.total_size) (Event.mmap fd expect.total_size)
        (create_fail os (some fd) none name expect.total_size) (create_mapped os name expect fd) tr₀
        (λ e. open-fail os name w fds maps names _ _ _ (positive e) o fd f m)
        λ p. mapped-Settles fd p _ f (ap (λ (n : ℕ). map_hit w p expect.total_size + n) m) o

  permitted-Settles :
      (fd : ℕ) (st : Stat) (tr : Trace)
      → open_fds w tr ≡ fd_hit w fd + fds
      → mappings w tr ≡ maps
      → objects w tr ≡ name_hit w name + names
      → Settles w
          (some name)
          fds
          maps
          names
          expect.total_size
          (create_permitted os name expect fd st tr)
  unfolding create_permitted
  permitted-Settles fd st tr₀ f m o =
      if-holds (Settles w (some name) fds maps names expect.total_size)
        (not (stat_permitted os.geteuid (some st)))
        (create_fail os (some fd) none name expect.total_size eacces)
        (attempt (ftruncate os fd expect.total_size)
          (create_fail os (some fd) none name expect.total_size) (create_sized os name expect fd))
        tr₀ (λ _. open-fail os name w fds maps names _ _ eacces (positive _) o fd f m)
        λ _.
          attempt-holds (Settles w (some name) fds maps names expect.total_size)
            (λ t. os.ftruncate t fd expect.total_size) (Event.ftruncate fd expect.total_size)
            (create_fail os (some fd) none name expect.total_size) (create_sized os name expect fd)
            tr₀ (λ e. open-fail os name w fds maps names _ _ _ (positive e) o fd f m)
            λ _. sized-Settles fd _ f m o

  opened-Settles :
      (fd : ℕ) (tr : Trace)
      → open_fds w tr ≡ fd_hit w fd + fds
      → mappings w tr ≡ maps
      → objects w tr ≡ name_hit w name + names
      → Settles w (some name) fds maps names expect.total_size (create_opened os name expect fd tr)
  unfolding create_opened
  opened-Settles fd tr₀ f m o =
      attempt-holds (Settles w (some name) fds maps names expect.total_size) (λ t. os.fstat t fd)
        (Event.fstat fd) (create_fail os (some fd) none name expect.total_size)
        (create_permitted os name expect fd) tr₀
        (λ e. open-fail os name w fds maps names _ _ _ (positive e) o fd f m)
        λ st. permitted-Settles fd st _ f m o

-- the result of a create with the handle that `*out` holds
unfoldable pub held : (ℕ × Option Handle) × Trace → (ℕ × Handle) × Trace
held r = ((r.0.0, Option.get_or r.0.1 reset_handle), r.1)

module _ (os : Os) (expect : Expect) (w : Watch) where
  refuse :
      (name : Option Os.Name) (rc : ℕ) (tr : Trace)
      → rc ≢ success
      → Settles w name
          (open_fds w tr)
          (mappings w tr)
          (objects w tr)
          expect.total_size
          ((rc, reset_handle), tr)
  refuse name rc tr bad = record {
    closed = refl;
    refused = λ _. (refl, refl, refl);
    made = λ q. absurd (bad q);
  }

  named-Settles :
      (n : Os.Name) (tr : Trace)
      → Settles w (some n) (open_fds w tr) (mappings w tr) (objects w tr) expect.total_size (
          held (
            attempt
              (shm_create os n)
              (λ e. pure (e, some reset_handle))
              (λ fd. do (status, handle) ← create_opened os n expect fd; pure (status, some handle))
              tr))
  unfolding held
  named-Settles n tr =
      attempt-holds
        (λ out.
          Settles w (some n) (open_fds w tr) (mappings w tr) (objects w tr) expect.total_size
            (held out))
        (λ t. os.shm_create t n) (Event.shm_create n) (λ e. pure (e, some reset_handle))
        (λ fd. do (status, handle) ← create_opened os n expect fd; pure (status, some handle)) tr
        (λ e. refuse (some n) (suc e) _ (positive e))
        λ fd.
          opened-Settles os n expect w (open_fds w tr) (mappings w tr) (objects w tr) fd _ refl refl
            refl

  -- A create, whatever the system replies and wherever it fails, closes the descriptor that it opened.
  -- One that fails has given the mapping that it made to munmap, with its address and its length, and
  -- the name of the object that it created to shm_unlink, and leaves an empty handle; one that
  -- succeeds keeps the one mapping of the handle, of the size that is expected, and the one object of
  -- the name.
  pub create-Settles :
      (name : Option Os.Name) (before : Handle) (tr : Trace)
      → Settles w name
          (open_fds w tr)
          (mappings w tr)
          (objects w tr)
          expect.total_size
          (held (create os name (some expect) (some before) tr))
  unfolding create held
  create-Settles none before tr =
      if-holds
        (λ out.
          Settles w none (open_fds w tr) (mappings w tr) (objects w tr) expect.total_size
            (held out))
        (validate_name none != success) (pure (validate_name none, some reset_handle)) _ tr
        (λ bad. refuse none (validate_name none) tr (ground arith))
        λ _.
          if-holds
            (λ out.
              Settles w none (open_fds w tr) (mappings w tr) (objects w tr) expect.total_size
                (held out))
            (ltb expect.total_size header_bytes) (pure (einval, some reset_handle)) _ tr
            (λ _. refuse none einval tr (positive _)) λ _. refuse none einval tr (positive _)
  create-Settles (some n) before tr =
      if-holds
        (λ out.
          Settles w (some n) (open_fds w tr) (mappings w tr) (objects w tr) expect.total_size
            (held out))
        (validate_name (some n) != success) (pure (validate_name (some n), some reset_handle)) _ tr
        (λ bad. refuse (some n) (validate_name (some n)) tr (ground arith))
        λ _.
          if-holds
            (λ out.
              Settles w (some n) (open_fds w tr) (mappings w tr) (objects w tr) expect.total_size
                (held out))
            (ltb expect.total_size header_bytes) (pure (einval, some reset_handle)) _ tr
            (λ _. refuse (some n) einval tr (positive _)) λ _. named-Settles n tr
