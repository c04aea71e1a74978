-- ===== src/Bindings/Array/Wrapping.antt =====
-- The index of an array of mutexes in src/bindings/py_array.c.
use posixipc.Os.{Os}
use posixipc.Mutex
