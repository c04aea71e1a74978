-- ===== src/Config.antt =====
-- src/core/posixipc_config.h, which the build generates from posixipc_config.h.in: a parameter of
-- the model. The `have_` fields are its POSIXIPC_HAVE_ macros, the `align_` fields what `alignof`
-- gives for the types of the C library.
use posixipc.Prelude.{ℕ, ◌<◌, Bool}
use posixipc.Queue.Size.{IsCacheline}

pub record Config : Type 0 where
  pub cacheline : ℕ
  pub libc_family : ℕ
  pub abi_tag_seed : ℕ
  pub sizeof_mutex : ℕ
  pub sizeof_rwlock : ℕ
  pub sizeof_cond : ℕ
  pub sizeof_barrier : ℕ
  pub sizeof_spinlock : ℕ
  pub sizeof_sem : ℕ
  pub align_mutex : ℕ
  pub align_rwlock : ℕ
  pub align_cond : ℕ
  pub align_barrier : ℕ
  pub align_spinlock : ℕ
  pub align_sem : ℕ
  pub have_barrier_wait : Bool
  pub have_barrierattr_setpshared : Bool
  pub have_condattr_setclock : Bool
  pub have_spin_init : Bool
  pub have_spin_trylock : Bool
  pub have_sem_open : Bool
  pub have_mq_open : Bool
  pub have_memfd_create : Bool
  pub have_eventfd : Bool

-- an alignment that the 16-bit field of a slot holds
pub record IsAlignment (a : ℕ) : Type 0 where
  pub pos : 0 < a
  pub word : a < 65536

-- What a configuration that was built satisfies.
pub record IsConfig (c : Config) : Type 0 where
  pub cacheline : IsCacheline c.cacheline
  pub mutex : IsAlignment c.align_mutex
  pub rwlock : IsAlignment c.align_rwlock
  pub cond : IsAlignment c.align_cond
  pub barrier : IsAlignment c.align_barrier
  pub spinlock : IsAlignment c.align_spinlock
  pub sem : IsAlignment c.align_sem
