-- ===== src/Shm/Held.antt =====
-- What a handle of src/core/posixipc_shm.c has of what is watched.
use posixipc.Prelude.{ℕ, Option, none, some}
use posixipc.Os.{Watch, map_hit, name_hit}
use posixipc.Os
use posixipc.Shm.{Handle}

-- 1 if its mapping, with its length, is the one that is watched
abbrev pub handle_hit : Watch → Handle → ℕ
handle_hit w h = elim (h.map) [ none ↦ 0 | some p ↦ map_hit w p h.map_len ]

abbrev pub some_hit : Watch → Option Handle → ℕ
some_hit w none = 0
some_hit w (some h) = handle_hit w h

abbrev pub named_hit : Watch → Option Os.Name → ℕ
named_hit w none = 0
named_hit w (some name) = name_hit w name
