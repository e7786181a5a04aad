-- ===== src/Vls.antt =====
-- internal/vclpoll/cgo.go: the sequences of calls of libvppcom, and what becomes of their results.
pub mod Addr
pub mod Calls
pub mod Create
pub mod Epoll
pub mod Variants
pub mod Sessions
pub mod Leaks
pub mod Blocking
mod Tests
