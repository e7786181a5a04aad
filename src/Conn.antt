-- ===== src/Conn.antt =====
-- conn.go: TCP connections.
pub mod Deadline
pub mod Defs
pub mod Closing
pub mod Loops
pub mod Reads
pub mod Writes
mod Tests
