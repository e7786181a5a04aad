-- ===== src/Mode2.antt =====
-- internal/vclpoll/mode2.go: the dispatcher of mode 2. Callers hold virtual handles; each operation
-- runs on the worker that owns the session.
pub mod Defs
pub mod Handles
pub mod Linked
pub mod Close
pub mod Tests
