-- ===== src/Shm/OpenOrCreate.antt =====
-- posixipc_shm_open_or_create of src/core/posixipc_shm.c.
pub mod Opening
use posixipc.Prelude.{ℕ, zero, suc, Option, none, some, ◌==◌, ◌!=◌, if◌then◌else◌}
use posixipc.Codes.{success, enoent, eexist, error_not_ready}
use posixipc.Layout.{Expect}
use posixipc.Os.{Os, Io, pure, ◌>>=◌, ◌>>◌}
use posixipc.Os
use posixipc.Time.{Deadline}
use posixipc.Shm.{Handle, create}
use posixipc.Shm.Attach.{attach}

module _ (os : Os) where
  -- a round behind the attach; `again` is the rest of the loop
  pub attach_seen :
      (Option Handle → Io (Option (ℕ × Option Handle)))
      → Option (ℕ × Handle)
      → Io (Option (ℕ × Option Handle))
  attach_seen again none = pure none
  attach_seen again (some (rc, h)) =
      if rc == success
      then pure (some (rc, some h))
      else if rc != enoent
      then pure (some (rc, some h))
      else again (some h)

  -- a round behind the create
  pub create_seen :
      (Option Handle → Io (Option (ℕ × Option Handle)))
      → (Option Handle → Io (Option (ℕ × Handle)))
      → ℕ
      → Option Handle
      → Io (Option (ℕ × Option Handle))
  unfolding attach_seen
  create_seen again attaching rc made =
      if rc == success
      then pure (some (rc, made))
      else if rc != eexist
      then pure (some (rc, made))
      else do r ← attaching made; attach_seen again r

  -- The loop with `tries` rounds left; `fuel` is that of each attach, and `none` says it ran out.
  pub open_loop :
      ℕ
      → ℕ
      → Option Os.Name
      → Option Expect
      → Option Deadline
      → Option Handle
      → Io (Option (ℕ × Option Handle))
  unfolding create_seen
  open_loop fuel zero name expect deadline out = pure (some (error_not_ready, out))
  open_loop fuel (suc tries) name expect deadline out = do
    (rc, made) ← create os name expect out
    create_seen (open_loop fuel tries name expect deadline) (attach os fuel name expect deadline) rc
        made

  pub open_or_create :
      ℕ
      → Option Os.Name
      → Option Expect
      → Option Deadline
      → Option Handle
      → Io (Option (ℕ × Option Handle))
  unfolding open_loop
  open_or_create fuel name expect deadline out = open_loop fuel 32 name expect deadline out
