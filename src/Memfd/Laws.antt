-- ===== src/Memfd/Laws.antt =====
-- The descriptors and mappings of src/core/posixipc_memfd.c.
use posixipc.Prelude.{
  ℕ, ◌+◌, ◌-◌, ◌≡◌, ◌≢◌, refl, arith, Bool, true, false, Option, none, some, [], ◌∷◌, ◌==◌,
  if◌then◌else◌, ◌&&◌, not, is_null,
}
use posixipc.Codes.{success}
use posixipc.Os.{Name, Watch, fd_hit, map_hit}
use posixipc.Calls.{Log, Reply}
use posixipc.Memfd.{
  label_of, Call, Memfd, zeroed, closed, memfd_named, memfd_from_fd, memfd_sized, memfd_opened,
  memfd_create, memfd_close,
}
use posixipc.Memfd

module _ (reply value : Reply Call) where
  -- Of the calls: how often the descriptor that is watched was opened and not closed, and the mapping
  -- made and not given to `munmap` with its address and its length.
  abbrev pub open_fds : Watch → Log Call → ℕ
  open_fds w [] = 0
  open_fds w ((Memfd.Call.anonymous name, rc) ∷ log) =
      if rc == success
      then fd_hit w (value log (Memfd.Call.anonymous name)) + open_fds w log
      else open_fds w log
  open_fds w ((Memfd.Call.close fd, rc) ∷ log) = open_fds w log - fd_hit w fd
  open_fds w (c ∷ log) = open_fds w log

  abbrev pub mappings : Watch → Log Call → ℕ
  mappings w [] = 0
  mappings w ((Memfd.Call.mmap fd size, rc) ∷ log) =
      if rc == success
      then map_hit w (value log (Memfd.Call.mmap fd size)) size + mappings w log
      else mappings w log
  mappings w ((Memfd.Call.munmap p size, rc) ∷ log) = mappings w log - map_hit w p size
  mappings w (c ∷ log) = mappings w log

  -- what a record has of what is watched
  abbrev pub fd_of : Watch → Option Memfd → ℕ
  fd_of w none = 0
  fd_of w (some m) = elim (m.fd) [ none ↦ 0 | some fd ↦ fd_hit w fd ]

  abbrev pub map_of : Watch → Option Memfd → ℕ
  map_of w none = 0
  map_of w (some m) = elim (m.map) [ none ↦ 0 | some p ↦ map_hit w p m.size ]

  -- the record of a mapped descriptor
  abbrev pub is_open : ℕ → Option Memfd → Bool
  is_open size none = false
  is_open size (some m) = not (is_null m.map) && not (is_null m.fd) && m.size == size

  -- A mapping that fails leaves none.
  memfd_from_fd-mappings :
      (w : Watch) (fd size : ℕ) (name : Option Name) (out : Memfd) (log : Log Call)
      → let (r, log') = memfd_from_fd reply value (some fd) size name (some out) log in
        (open_fds w log' ≡ open_fds w log)
        × (mappings w log'
            ≡ (if r.0 == success then map_of w r.1 + mappings w log else mappings w log))
        × (r.0 ≡ success → fd_of w r.1 ≡ fd_hit w fd)
        × (r.0 ≡ success → is_open size r.1 ≡ true)
  unfolding memfd_from_fd
  memfd_from_fd-mappings w fd size none out log =
      (ground arith, ground arith, λ fine. ground arith, λ fine. ground arith)
  memfd_from_fd-mappings w fd size (some n) out log =
      (ground arith, ground arith, λ fine. ground arith, λ fine. ground arith)

  memfd_sized-leaks :
      (w : Watch) (fd size : ℕ) (name : Option Name) (log : Log Call)
      → let (r, log') = memfd_sized reply value fd size name log in
        (open_fds w log'
          ≡ (if r.0 == success then open_fds w log else open_fds w log - fd_hit w fd))
        × (mappings w log'
            ≡ (if r.0 == success then map_of w r.1 + mappings w log else mappings w log))
        × (r.0 ≡ success → fd_of w r.1 ≡ fd_hit w fd)
        × (r.0 ≡ success → is_open size r.1 ≡ true)
  unfolding memfd_sized
  memfd_sized-leaks w fd size name log =
      let (f, m, d, o) = memfd_from_fd-mappings w fd size (some (label_of name)) zeroed log in
      (ground arith, ground arith, λ fine. ground arith, λ fine. ground arith)

  memfd_opened-leaks :
      (w : Watch) (fd size : ℕ) (name : Option Name) (log : Log Call)
      → let (r, log') = memfd_opened reply value fd size name log in
        (open_fds w log'
          ≡ (if r.0 == success then open_fds w log else open_fds w log - fd_hit w fd))
        × (mappings w log'
            ≡ (if r.0 == success then map_of w r.1 + mappings w log else mappings w log))
        × (r.0 ≡ success → fd_of w r.1 ≡ fd_hit w fd)
        × (r.0 ≡ success → is_open size r.1 ≡ true)
  unfolding memfd_opened
  memfd_opened-leaks w fd size name log =
      let (f, m, d, o) =
        memfd_sized-leaks w fd size name
          ((Memfd.Call.ftruncate fd size, reply log (Memfd.Call.ftruncate fd size)) ∷ log) in
      (ground arith, ground arith, λ fine. ground arith, λ fine. ground arith)

  -- A create that fails leaves no descriptor and no mapping; one that succeeds leaves one of each, in
  -- the record it fills in.
  pub memfd_create-leaks :
      (w : Watch) (have : Bool) (name : Option Name) (size : ℕ) (out : Option Memfd)
      (log : Log Call)
      → let (r, log') = memfd_create reply value have name size out log in
        (open_fds w log'
          ≡ (if r.0 == success then fd_of w r.1 + open_fds w log else open_fds w log))
        × (mappings w log'
            ≡ (if r.0 == success then map_of w r.1 + mappings w log else mappings w log))
        × (r.0 ≡ success → is_open size r.1 ≡ true)
  unfolding memfd_create
  memfd_create-leaks w have name size none log = (ground arith, ground arith, λ fine. ground arith)
  memfd_create-leaks w have name size (some out) log =
      let rc = reply log (Memfd.Call.anonymous (label_of name)) in
      let (f, m, d, o) =
        memfd_opened-leaks w (value log (Memfd.Call.anonymous (label_of name))) size name
          ((Memfd.Call.anonymous (label_of name), rc) ∷ log) in
      (ground arith, ground arith, λ fine. ground arith)

  memfd_create-sized :
      (name : Option Name) (size : ℕ) (out : Memfd) (log : Log Call)
      → (memfd_create reply value true name size (some out) log).0.0 ≡ success
      → size ≢ 0
  unfolding memfd_create
  memfd_create-sized name size out log fine zero_size = ground arith

  memfd_close-open :
      (w : Watch) (size : ℕ) (o : Option Memfd) (log : Log Call)
      → is_open size o ≡ true
      → size ≢ 0
      → let (c, log') = memfd_close reply value o log in
        (c.1 ≡ some closed)
        × (open_fds w log' ≡ open_fds w log - fd_of w o)
        × (mappings w log' ≡ mappings w log - map_of w o)
  unfolding memfd_close
  memfd_close-open w size none log h ne = absurd (ground arith)
  memfd_close-open w size (some m) log h ne = (refl, ground arith, ground arith)

  -- Closing what a create filled in closes the descriptor that the create opened and gives the mapping
  -- that it made to munmap, with its address and its length, whatever the calls return.
  pub memfd_create-close :
      (w : Watch) (name : Option Name) (size : ℕ) (out : Memfd) (log : Log Call)
      → (memfd_create reply value true name size (some out) log).0.0 ≡ success
      → let (r, log') = memfd_create reply value true name size (some out) log in
        let (c, log'') = memfd_close reply value r.1 log' in
        (c.1 ≡ some closed)
        × (open_fds w log'' ≡ open_fds w log)
        × (mappings w log'' ≡ mappings w log)
  memfd_create-close w name size out log fine =
      let (r, log') = memfd_create reply value true name size (some out) log in
      let (f, m, o) = memfd_create-leaks w true name size (some out) log in
      let (e, f', m') =
        memfd_close-open w size r.1 log' (o fine) (memfd_create-sized name size out log fine) in
      (e, ground arith, ground arith)
