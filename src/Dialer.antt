-- ===== src/Dialer.antt =====
-- dialer.go: connecting to one address, and to several at once.
pub mod Order
pub mod Race
pub mod Connect
pub mod Others
mod Tests
