-- ===== src/Bindings.antt =====
-- src/bindings: the objects that wait, and those of segments. The functions take their arguments
-- parsed; the objects of Python are values.
pub mod Errors
pub mod Run
pub mod Acquire
pub mod Wait
pub mod Lock
pub mod Sharing
pub mod Region
pub mod FutexRing
pub mod FutexObject
pub mod Semaphore
pub mod Array
pub mod Exchange
pub mod Ring
