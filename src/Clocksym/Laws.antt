-- ===== src/Clocksym/Laws.antt =====
-- The look-up of src/core/posixipc_clocksym.c.
use posixipc.Prelude.{ℕ, ◌≡◌, refl, false, not, Option, is_null}
use posixipc.Clocksym.{
  Found, fresh, set_mutex_clocklock, have_mutex_clocklock, have_rwlock_clocklock,
  have_sem_clockwait,
}

-- Where the mutex function is set before the first look-up, the others are never looked up: the
-- timed locks and waits then work without the C library's clock functions, whether it has them or not.
pub set_before_init :
    (dl : Found) (fn : Option ℕ)
    → let s = set_mutex_clocklock dl fn fresh in
      ((have_mutex_clocklock dl s).0 ≡ not (is_null fn))
      × ((have_rwlock_clocklock dl s).0 ≡ false)
      × ((have_sem_clockwait dl s).0 ≡ false)
unfolding set_mutex_clocklock have_mutex_clocklock have_rwlock_clocklock have_sem_clockwait
set_before_init dl fn = (refl, refl, refl)
