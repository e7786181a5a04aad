-- ===== src/Pool.antt =====
-- internal/vclpoll/worker.go, lines 57 to 190, and mode2.go, lines 56 to 142: the life of the pinned
-- workers of the multi-worker mode, and the operations that are submitted to them.
pub mod Life
pub mod System
pub mod Invariant
pub mod Own
pub mod Moves
pub mod Control
pub mod Steps
pub mod Safety
pub mod Counts
pub mod Ops
pub mod Progress
mod Tests
