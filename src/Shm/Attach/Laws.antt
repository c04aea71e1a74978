-- ===== src/Shm/Attach/Laws.antt =====
-- posixipc_shm_attach of src/core/posixipc_shm.c: what it leaves behind.
use posixipc.Prelude.{
  ℕ, suc, ◌+◌, ◌-◌, ◌≡◌, ◌≢◌, refl, ap, arith, Bool, true, false, Option, none, some, List, ◌∷◌,
  is_null, ltb, ◌!=◌, if◌then◌else◌,
}
use posixipc.Codes.{success, einval, error_layout_mismatch}
use posixipc.Layout.{Expect, header_bytes}
use posixipc.Os.{
  Os, Ret, ok, fail, Watch, fd_hit, map_hit, Stat, Header, Event, Trace, Io, open_fds, mappings,
  objects, pure, ◌>>=◌, perform, attempt,
}
use posixipc.Os
use posixipc.Os.Steps.{attempt-holds, if-holds}
use posixipc.Time.{Deadline}
use posixipc.Layout.Digest.{Slot}
use posixipc.Shm.Compare.{compare_expect}
use posixipc.Shm.Held.{handle_hit}
use posixipc.Shm.Name.{validate_name}
use posixipc.Shm.{shm_open, mmap, munmap, magic_wire, Handle, reset_handle, fstat}
use posixipc.Shm.Attach.{
  attach_fail, wait_size, wait_ready, attach_named, attach_compared, attach_mapped, attach_sized,
  attach_stat, attach_ready, proceed, attach_window, attach_opened, attach,
}
use posixipc.Shm.Attach.Loops.{Same, wait_size-Same, wait_ready-Same}

-- The result of an attach that began with these counts of what is watched: a failure leaves an empty
-- handle and the counts, a success adds the handle's mapping.
pub record Attaches (w : Watch) (fds maps names : ℕ) (out : (ℕ × Handle) × Trace) : Type 0 where
  pub closed : open_fds w out.1 ≡ fds
  pub kept : objects w out.1 ≡ names
  pub refused : out.0.0 ≢ success → (out.0.1 ≡ reset_handle) × (mappings w out.1 ≡ maps)
  pub made :
      out.0.0 ≡ success
      → (is_null (out.0.1).map ≡ false)
        × ((out.0.1).hdr ≡ (out.0.1).map)
        × (mappings w out.1 ≡ handle_hit w out.0.1 + maps)

-- the same of a run on fuel, where it ended
abbrev pub AttachesIn : Watch → ℕ → ℕ → ℕ → Option (ℕ × Handle) × Trace → Type 0
AttachesIn w fds maps names (none, tr) = Unit {0}
AttachesIn w fds maps names (some r, tr) = Attaches w fds maps names (r, tr)

less_one : (n : ℕ) {a b : ℕ} → a ≡ n + b → a - n ≡ b
less_one n e = omega arith

whole_map :
    (w : Watch) (map total : ℕ)
    → total ≢ 0
    → map_hit w map (if total != 0 then total else header_bytes) ≡ map_hit w map total
whole_map w map total pos = ap (map_hit w map) (ground arith)

is_false-success : (rc : ℕ) → (rc != success) ≡ true → rc ≢ success
is_false-success rc e = ground arith

positive : (e : ℕ) → suc e ≢ success
positive e q = absurd (omega arith)

module _ (os : Os) (w : Watch) (fds maps names : ℕ) where
  module _ (total rc : ℕ) (bad : rc ≢ success) (tr : Trace) where
    open-fail :
        (fd : ℕ)
        → Same w (fd_hit w fd + fds) maps names tr
        → Attaches w fds maps names (attach_fail os (some fd) none none total rc tr)
    unfolding attach_fail
    open-fail fd (f, m, o) = record {
      closed = omega arith;
      kept = omega arith;
      refused = λ _. (refl, omega arith);
      made = λ q. absurd (bad q);
    }

    window-fail :
        (fd window : ℕ)
        → Same w (fd_hit w fd + fds) (map_hit w window header_bytes + maps) names tr
        → Attaches w fds maps names (attach_fail os (some fd) (some window) none total rc tr)
    unfolding attach_fail
    window-fail fd window (f, m, o) = record {
      closed = omega arith;
      kept = omega arith;
      refused = λ _. (refl, omega arith);
      made = λ q. absurd (bad q);
    }

    mapped-fail :
        (map : ℕ)
        → total ≢ 0
        → Same w fds (map_hit w map total + maps) names tr
        → Attaches w fds maps names (attach_fail os none none (some map) total rc tr)
    unfolding attach_fail
    mapped-fail map pos (f, m, o) = record {
      closed = omega arith;
      kept = omega arith;
      refused = λ _. (refl, omega (arith, whole_map w map total pos));
      made = λ q. absurd (bad q);
    }

  named-Attaches :
      (name : Os.Name) (total map : ℕ) (tr : Trace)
      → total ≢ 0
      → Same w fds (map_hit w map total + maps) names tr
      → Attaches w fds maps names (attach_named os name total map tr)
  unfolding attach_named
  named-Attaches name total map tr pos (f, m, o) =
      let whole = whole_map w map total pos in
      record {
        closed = ground arith;
        kept = ground arith;
        refused = λ bad. (ground arith, ground (arith, whole));
        made = λ fine. (ground arith, ground arith, ground arith);
      }

  compared-Attaches :
      (name : Os.Name) (expect : Option Expect) (total map : ℕ) (tr : Trace)
      → total ≢ 0
      → Same w fds (map_hit w map total + maps) names tr
      → Attaches w fds maps names (attach_compared os name expect total map tr)
  unfolding attach_compared
  compared-Attaches name expect total map tr pos h =
      if-holds (Attaches w fds maps names) (rc != success)
        (attach_fail os none none (some map) total rc) (attach_named os name total map) loaded
        (λ bad. mapped-fail total rc (is_false-success rc bad) loaded map pos h)
        λ _. named-Attaches name total map loaded pos h
    where
      hdr : Header
      hdr = os.load_header tr map

      dir : List Slot
      dir = os.load_directory (Event.load_header map hdr ∷ tr) (map + header_bytes) hdr.slot_count

      loaded : Trace
      loaded = Event.load_directory (map + header_bytes) dir ∷ Event.load_header map hdr ∷ tr

      rc : ℕ
      rc = compare_expect (magic_wire os) hdr (some dir) expect

  mapped-Attaches :
      (name : Os.Name) (expect : Option Expect) (fd total map : ℕ) (tr : Trace)
      → total ≢ 0
      → Same w (fd_hit w fd + fds) (map_hit w map total + maps) names tr
      → Attaches w fds maps names (attach_mapped os name expect fd total map tr)
  unfolding attach_mapped
  mapped-Attaches name expect fd total map tr pos (f, m, o) =
      attempt-holds (Attaches w fds maps names) (λ t. os.close t fd) (Event.close fd)
        (attach_fail os none none (some map) total) (λ _. attach_compared os name expect total map)
        tr (λ e. mapped-fail total (suc e) (positive e) _ map pos (less_one (fd_hit w fd) f, m, o))
        λ _. compared-Attaches name expect total map _ pos (less_one (fd_hit w fd) f, m, o)

  sized-Attaches :
      (name : Os.Name) (expect : Option Expect) (fd total : ℕ) (tr : Trace)
      → total ≢ 0
      → Same w (fd_hit w fd + fds) maps names tr
      → Attaches w fds maps names (attach_sized os name expect fd total tr)
  unfolding attach_sized
  sized-Attaches name expect fd total tr pos (f, m, o) =
      attempt-holds (Attaches w fds maps names) (λ t. os.mmap t fd total) (Event.mmap fd total)
        (attach_fail os (some fd) none none total) (attach_mapped os name expect fd total) tr
        (λ e. open-fail total (suc e) (positive e) _ fd (f, m, o))
        λ map.
          mapped-Attaches name expect fd total map _ pos
            (f, ap (λ (n : ℕ). map_hit w map total + n) m, o)

  stat-Attaches :
      (name : Os.Name) (expect : Option Expect) (fd window total : ℕ) (st : Stat) (tr : Trace)
      → total ≢ 0
      → Same w (fd_hit w fd + fds) (map_hit w window header_bytes + maps) names tr
      → Attaches w fds maps names (attach_stat os name expect fd window total st tr)
  unfolding attach_stat
  stat-Attaches name expect fd window total st tr pos (f, m, o) =
      let differs : Bool = elim expect [ none ↦ false | some e ↦ total != e.total_size ] in
      let going : Io (ℕ × Handle) =
        munmap os window header_bytes >>= λ _. attach_sized os name expect fd total in
      let failing : Io (ℕ × Handle) =
        attach_fail os (some fd) (some window) none total error_layout_mismatch in
      if-holds (Attaches w fds maps names) (ltb st.size total) failing
        (if differs then failing else going) tr
        (λ _. window-fail total error_layout_mismatch (positive _) tr fd window (f, m, o))
        λ _.
          if-holds (Attaches w fds maps names) differs failing going tr
            (λ _. window-fail total error_layout_mismatch (positive _) tr fd window (f, m, o))
            λ _.
              sized-Attaches name expect fd total _ pos
                (f, less_one (map_hit w window header_bytes) m, o)

  ready-Attaches :
      (name : Os.Name) (expect : Option Expect) (fd window : ℕ) (tr : Trace)
      → Same w (fd_hit w fd + fds) (map_hit w window header_bytes + maps) names tr
      → Attaches w fds maps names (attach_ready os name expect fd window tr)
  unfolding attach_ready
  ready-Attaches name expect fd window tr h =
      let hdr : Header = os.load_header tr window in
      let loaded : Trace = Event.load_header window hdr ∷ tr in
      if-holds (Attaches w fds maps names) (ltb hdr.total_size header_bytes)
        (attach_fail os (some fd) (some window) none hdr.total_size error_layout_mismatch)
        (attempt (fstat os fd) (attach_fail os (some fd) (some window) none hdr.total_size)
          (attach_stat os name expect fd window hdr.total_size))
        loaded
        (λ _. window-fail hdr.total_size error_layout_mismatch (positive _) loaded fd window h)
        λ big.
          attempt-holds (Attaches w fds maps names) (λ t. os.fstat t fd) (Event.fstat fd)
            (attach_fail os (some fd) (some window) none hdr.total_size)
            (attach_stat os name expect fd window hdr.total_size) loaded
            (λ e. window-fail hdr.total_size (suc e) (positive e) _ fd window h)
            λ st. stat-Attaches name expect fd window hdr.total_size st _ (ground arith) h

  -- what a loop's status leads to, where both ways settle
  proceed-Attaches :
      (waited : Option ℕ) (failing : ℕ → Io (ℕ × Handle)) (going : Io (Option (ℕ × Handle)))
      (tr : Trace)
      → ((rc : ℕ) → rc ≢ success → Attaches w fds maps names (failing rc tr))
      → AttachesIn w fds maps names (going tr)
      → AttachesIn w fds maps names (proceed os waited failing going tr)
  unfolding proceed
  proceed-Attaches none failing going tr fails goes = tt
  proceed-Attaches (some rc) failing going tr fails goes =
      if-holds (AttachesIn w fds maps names) (rc != success) (failing rc >>= λ r. pure (some r))
        going tr (λ bad. fails rc (is_false-success rc bad)) λ _. goes

  window-Attaches :
      (fuel : ℕ) (name : Os.Name) (expect : Option Expect) (d : Option Deadline) (fd window : ℕ)
      (tr : Trace)
      → Same w (fd_hit w fd + fds) (map_hit w window header_bytes + maps) names tr
      → AttachesIn w fds maps names (attach_window os fuel name expect d fd window tr)
  unfolding attach_window
  window-Attaches fuel name expect d fd window tr h =
      let waited : Option ℕ × Trace = wait_ready os fuel window d 1 tr in
      let still =
        wait_ready-Same os w (fd_hit w fd + fds) (map_hit w window header_bytes + maps) names fuel
          window d 1 tr h in
      proceed-Attaches waited.0 (attach_fail os (some fd) (some window) none 0)
        (attach_ready os name expect fd window >>= λ r. pure (some r)) waited.1
        (λ rc bad. window-fail 0 rc bad waited.1 fd window still)
        (ready-Attaches name expect fd window waited.1 still)

  opened-Attaches :
      (fuel : ℕ) (name : Os.Name) (expect : Option Expect) (d : Option Deadline) (fd : ℕ)
      (tr : Trace)
      → Same w (fd_hit w fd + fds) maps names tr
      → AttachesIn w fds maps names (attach_opened os fuel name expect d fd tr)
  unfolding attach_opened
  opened-Attaches fuel name expect d fd tr h =
      let waited : Option ℕ × Trace = wait_size os fuel fd d 1 tr in
      let (f, m, o) = wait_size-Same os w (fd_hit w fd + fds) maps names fuel fd d 1 tr h in
      proceed-Attaches waited.0 (attach_fail os (some fd) none none 0)
        (attempt (mmap os fd header_bytes)
          (λ e. attach_fail os (some fd) none none 0 e >>= λ r. pure (some r))
          (attach_window os fuel name expect d fd))
        waited.1 (λ rc bad. open-fail 0 rc bad waited.1 fd (f, m, o))
        (attempt-holds (AttachesIn w fds maps names) (λ t. os.mmap t fd header_bytes)
          (Event.mmap fd header_bytes)
          (λ e. attach_fail os (some fd) none none 0 e >>= λ r. pure (some r))
          (attach_window os fuel name expect d fd) waited.1
          (λ e. open-fail 0 (suc e) (positive e) _ fd (f, m, o))
          λ window.
            window-Attaches fuel name expect d fd window _
              (f, ap (λ (n : ℕ). map_hit w window header_bytes + n) m, o))

module _ (os : Os) (fuel : ℕ) (expect : Option Expect) (d : Option Deadline) (w : Watch) where
  refuse :
      (rc : ℕ) (tr : Trace)
      → rc ≢ success
      → AttachesIn w (open_fds w tr) (mappings w tr) (objects w tr) (some (rc, reset_handle), tr)
  refuse rc tr bad = record {
    closed = refl;
    kept = refl;
    refused = λ _. (refl, refl);
    made = λ q. absurd (bad q);
  }

  -- An attach whose loops end, whatever the system and other processes do, creates and unlinks no
  -- object and closes the descriptor that it opened. One that fails has given each mapping that it
  -- made to munmap, with its address and its length, and leaves an empty handle; one that succeeds
  -- keeps the one mapping of the handle, which has its header at the start.
  pub attach-Attaches :
      (name : Option Os.Name) (before : Handle) (tr : Trace)
      → AttachesIn w
          (open_fds w tr)
          (mappings w tr)
          (objects w tr)
          (attach os fuel name expect d (some before) tr)
  unfolding attach
  attach-Attaches none before tr =
      if-holds (AttachesIn w (open_fds w tr) (mappings w tr) (objects w tr))
        (validate_name none != success) (pure (some (validate_name none, reset_handle)))
        (pure (some (einval, reset_handle))) tr
        (λ bad. refuse (validate_name none) tr (is_false-success _ bad))
        λ _. refuse einval tr (positive _)
  attach-Attaches (some n) before tr =
      if-holds (AttachesIn w (open_fds w tr) (mappings w tr) (objects w tr))
        (validate_name (some n) != success) (pure (some (validate_name (some n), reset_handle)))
        (attempt (shm_open os n) (λ e. pure (some (e, reset_handle)))
          (attach_opened os fuel n expect d))
        tr (λ bad. refuse (validate_name (some n)) tr (is_false-success _ bad))
        λ _.
          attempt-holds (AttachesIn w (open_fds w tr) (mappings w tr) (objects w tr))
            (λ t. os.shm_open t n) (Event.shm_open n) (λ e. pure (some (e, reset_handle)))
            (attach_opened os fuel n expect d) tr
            (λ e. refuse (suc e) (Event.shm_open n (fail e) ∷ tr) (positive e))
            λ fd.
              opened-Attaches os w (open_fds w tr) (mappings w tr) (objects w tr) fuel n expect d fd
                _ (refl, refl, refl)
