-- ===== src/Tls.antt =====
-- tls.go: certificates and their registration with VPP.
pub mod Keys
pub mod Cache
mod Account
mod Sound
mod Tests
