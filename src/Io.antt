-- ===== src/Io.antt =====
-- internal/vclpoll/cgo.go and mode2.go: the calls that are tried again when a session is ready.
pub mod Raw
pub mod Spec
pub mod Mode3
pub mod Locks
pub mod Refines
pub mod Mode2
pub mod Refines2
pub mod NotAgain
pub mod Connect
mod Waits
mod Tests
