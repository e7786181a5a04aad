-- ===== src/Poller.antt =====
-- internal/vclpoll/poller.go: the shared poller of mode 3. One goroutine owns the VLS epoll handle
-- and the map of wait sets; others reach it through three channels.
pub mod Defs
pub mod Invariant
pub mod Tickets
pub mod System
pub mod Safety
pub mod Wakeups
pub mod Barriers
pub mod Tests
