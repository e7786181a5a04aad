-- ===== src/Setup.antt =====
-- vclnet.go, tls.go and internal/vclpoll/dispatch.go: initialisation, and how listeners are set up.
pub mod Options
pub mod Listen
pub mod Tidy
pub mod Accept
mod Tests
