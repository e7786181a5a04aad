-- ===== src/Udp.antt =====
-- udpconn.go: connected and unconnected UDP sockets.
pub mod Defs
pub mod Laws
mod Tests
