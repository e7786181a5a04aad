-- ===== src/Shards.antt =====
-- internal/vclpoll/shard_listener.go: the listeners of the multi-worker mode, one for each worker.
pub mod Defs
pub mod Create
pub mod Loops
pub mod Account
pub mod Close
mod Tests
