-- ===== src/Codes.antt =====
-- The status codes of the C functions: 0 is success, an errno value (those of Linux) or a code of
-- src/core/posixipc_result.h otherwise.
use posixipc.Prelude.{ℕ}

abbrev pub success : ℕ
success = 0

abbrev pub eperm : ℕ
eperm = 1

abbrev pub enoent : ℕ
enoent = 2

abbrev pub eintr : ℕ
eintr = 4

abbrev pub eio : ℕ
eio = 5

abbrev pub ebadf : ℕ
ebadf = 9

abbrev pub eagain : ℕ
eagain = 11

abbrev pub enomem : ℕ
enomem = 12

abbrev pub eacces : ℕ
eacces = 13

abbrev pub ebusy : ℕ
ebusy = 16

abbrev pub eexist : ℕ
eexist = 17

abbrev pub einval : ℕ
einval = 22

abbrev pub edeadlk : ℕ
edeadlk = 35

abbrev pub enametoolong : ℕ
enametoolong = 36

abbrev pub enosys : ℕ
enosys = 38

abbrev pub eoverflow : ℕ
eoverflow = 75

abbrev pub enotsup : ℕ
enotsup = 95

abbrev pub etimedout : ℕ
etimedout = 110

abbrev pub error_layout_mismatch : ℕ
error_layout_mismatch = 5000

abbrev pub error_not_ready : ℕ
error_not_ready = 5001

abbrev pub error_broken : ℕ
error_broken = 5002

abbrev pub error_interrupted : ℕ
error_interrupted = 5003

abbrev pub barrier_serial : ℕ
barrier_serial = 5004

abbrev pub eownerdead : ℕ
eownerdead = 130

abbrev pub enotrecoverable : ℕ
enotrecoverable = 131
