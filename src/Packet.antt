-- ===== src/Packet.antt =====
-- packetconn.go: unconnected UDP sockets.
pub mod Peers
pub mod Writes
pub mod Reads
pub mod Goroutines
pub mod Quiet
pub mod Sane
pub mod Ends
mod Tests
