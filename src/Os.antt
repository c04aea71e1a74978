-- ===== src/Os.antt =====
-- The operating system as the sources call it: a parameter of the model. A `Trace` is the list of
-- the calls made so far, the last one first, with their replies, and an `Os` may reply to a call by
-- all that came before it. Other processes act through these replies.
pub mod Steps
use posixipc.Prelude.{
  ℕ, suc, ◌+◌, ◌-◌, Bool, true, false, ◌==◌, ◌&&◌, Option, none, some, List, [], ◌∷◌,
}
use posixipc.Layout.Digest.{Slot}

-- Of a failed call `fail e` says that `errno` is e + 1: POSIX has no error of number 0.
pub data Ret (A : Type 0) : Type 0 where
  ok : A → Ret A
  fail : ℕ → Ret A

abbrev pub Name : Type 0
Name = List ℕ

-- the fields that are read of a `struct stat`
pub record Stat : Type 0 where
  pub uid : ℕ
  pub mode : ℕ
  pub size : ℕ

pub record Timespec : Type 0 where
  pub sec : ℕ
  pub nsec : ℕ

-- `posixipc_shm_header`
pub record Header : Type 0 where
  pub magic : ℕ
  pub layout_version : ℕ
  pub slot_count : ℕ
  pub abi_tag : ℕ
  pub flags : ℕ
  pub total_size : ℕ
  pub directory_bytes : ℕ
  pub state : ℕ
  pub layout_digest : ℕ

-- A call with its reply, or a store to the segment that is mapped at an address.
pub data Event : Type 0 where
  shm_create : Name → Ret ℕ → Event
  shm_open : Name → Ret ℕ → Event
  shm_unlink : Name → Ret (Unit {0}) → Event
  fstat : ℕ → Ret Stat → Event
  ftruncate : ℕ → ℕ → Ret (Unit {0}) → Event
  mmap : ℕ → ℕ → Ret ℕ → Event
  munmap : ℕ → ℕ → Ret (Unit {0}) → Event
  close : ℕ → Ret (Unit {0}) → Event
  malloc : ℕ → Option ℕ → Event
  nanosleep : ℕ → Ret (Unit {0}) → Event
  clock_gettime : ℕ → Ret Timespec → Event
  write_header : ℕ → Header → Event
  write_directory : ℕ → List Slot → Event
  store_state : ℕ → ℕ → Event
  load_state : ℕ → ℕ → Event
  load_header : ℕ → Header → Event
  load_directory : ℕ → List Slot → Event

abbrev pub Trace : Type 0
Trace = List Event

pub record Os : Type 0 where
  -- shm_open with O_CREAT | O_EXCL, and without
  pub shm_create : Trace → Name → Ret ℕ
  pub shm_open : Trace → Name → Ret ℕ
  pub shm_unlink : Trace → Name → Ret (Unit {0})
  pub fstat : Trace → ℕ → Ret Stat
  pub ftruncate : Trace → ℕ → ℕ → Ret (Unit {0})
  pub mmap : Trace → ℕ → ℕ → Ret ℕ
  pub munmap : Trace → ℕ → ℕ → Ret (Unit {0})
  pub close : Trace → ℕ → Ret (Unit {0})
  pub malloc : Trace → ℕ → Option ℕ
  pub nanosleep : Trace → ℕ → Ret (Unit {0})
  pub clock_gettime : Trace → ℕ → Ret Timespec
  -- what the memory at an address holds
  pub load_state : Trace → ℕ → ℕ
  pub load_header : Trace → ℕ → Header
  pub load_directory : Trace → ℕ → ℕ → List Slot
  pub geteuid : ℕ
  pub htobe32 : ℕ → ℕ

abbrev pub Io : Type 0 → Type 0
Io A = Trace → A × Trace

abbrev pub pure : {A : Type 0} → A → Io A
pure a tr = (a, tr)

infixl 5 ◌>>=◌ ◌>>◌
abbrev pub ◌>>=◌ : {A B : Type 0} → Io A → (A → Io B) → Io B
◌>>=◌ m f tr = let (a, tr') = m tr in f a tr'

abbrev pub ◌>>◌ : {A B : Type 0} → Io A → Io B → Io B
m >> k = m >>= λ _. k

-- a call that is answered by `reply` and recorded as `event`
abbrev pub perform : {A : Type 0} → (Trace → A) → (A → Event) → Io A
perform reply event tr = let a = reply tr in (a, event a ∷ tr)

-- a call, with the branch for its errno
abbrev pub branch : {A B : Type 0} → Ret A → (ℕ → Io B) → (A → Io B) → Io B
branch (ok a) bad good = good a
branch (fail e) bad good = bad (suc e)

abbrev pub attempt : {A B : Type 0} → Io (Ret A) → (ℕ → Io B) → (A → Io B) → Io B
attempt m bad good = m >>= λ r. branch r bad good

-- the status that the C code returns of a call: 0, or errno
abbrev pub status_of : {A : Type 0} → Ret A → ℕ
status_of (ok _) = 0
status_of (fail e) = suc e

-- What the counts below watch: one descriptor, the mapping of `len` bytes at one address, and the
-- object of one name.
pub record Watch : Type 0 where
  pub fd : ℕ
  pub address : ℕ
  pub len : ℕ
  pub name : Name

one_if : Bool → ℕ
one_if true = 1
one_if false = 0

same_name : Name → Name → Bool
same_name [] [] = true
same_name (a ∷ s) (b ∷ t) = a == b && same_name s t
same_name s t = false

-- 1 for what is watched, and 0 for all else
pub fd_hit : Watch → ℕ → ℕ
unfolding one_if
fd_hit w fd = one_if (fd == w.fd)

pub map_hit : Watch → ℕ → ℕ → ℕ
unfolding one_if
map_hit w p len = one_if (p == w.address && len == w.len)

pub name_hit : Watch → Name → ℕ
unfolding one_if same_name
name_hit w name = one_if (same_name name w.name)

-- Of the events: how often the descriptor was opened and not closed, the mapping made and not given to
-- `munmap` with its address and its length, and the object created and its name not given to
-- `shm_unlink`.
abbrev pub open_fds : Watch → Trace → ℕ
open_fds w [] = 0
open_fds w (shm_create _ (ok fd) ∷ tr) = fd_hit w fd + open_fds w tr
open_fds w (shm_open _ (ok fd) ∷ tr) = fd_hit w fd + open_fds w tr
open_fds w (close fd _ ∷ tr) = open_fds w tr - fd_hit w fd
open_fds w (_ ∷ tr) = open_fds w tr

abbrev pub mappings : Watch → Trace → ℕ
mappings w [] = 0
mappings w (mmap _ len (ok p) ∷ tr) = map_hit w p len + mappings w tr
mappings w (munmap p len _ ∷ tr) = mappings w tr - map_hit w p len
mappings w (_ ∷ tr) = mappings w tr

abbrev pub objects : Watch → Trace → ℕ
objects w [] = 0
objects w (shm_create name (ok _) ∷ tr) = name_hit w name + objects w tr
objects w (shm_unlink name _ ∷ tr) = objects w tr - name_hit w name
objects w (_ ∷ tr) = objects w tr
