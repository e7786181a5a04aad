-- ===== src/Queries.antt =====
-- The calls that ask libvppcom once and do not wait: internal/vclpoll/cgo.go and mode2.go.
pub mod Raw
pub mod Mode3
pub mod Mode2
pub mod Agree
mod Tests
