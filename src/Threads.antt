-- ===== src/Threads.antt =====
-- internal/vclpoll/cgo.go, lines 704 to 886 and 1508 to 1528: the threads that call libvppcom, their
-- registration, and `vlsMu`, the lock that orders the calls.
pub mod Defs
pub mod System
pub mod Moves
pub mod Own
pub mod Others
pub mod Invariant
pub mod Safety
mod Tests
