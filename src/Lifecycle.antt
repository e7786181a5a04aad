-- ===== src/Lifecycle.antt =====
-- lifecycle.go and shutdown.go: the registry of live objects, and the end of the process.
pub mod Registry
pub mod Drain
pub mod Shutdown
mod Tests
