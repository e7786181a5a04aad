-- ===== src/Worker.antt =====
-- internal/vclpoll/worker.go: one worker of mode 2. It owns a VCL worker, an epoll handle, and the
-- raw handles of its sessions, each under the public handle that callers hold.
pub mod Defs
pub mod Leave
pub mod Invariant
pub mod Keeps
pub mod Sessions
pub mod Turns
pub mod Events
pub mod Tests
