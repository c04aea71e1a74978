-- ===== src/Examples.antt =====
-- The theorems at concrete inputs: rings, segments and layouts, and the wrappers of the C library.
mod Locks
mod Objects
mod Rings
mod Segments
mod Shared
mod Waits
mod Wrappers
