-- ===== src/Addr.antt =====
-- addr.go: networks and the choice of addresses.
pub mod Resolve
mod Tests
