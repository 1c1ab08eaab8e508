-- ===== src/Tests.antt =====
-- The theorems at concrete inputs.
mod Fixtures
mod Sockets
mod Peers
mod Handshakes
mod Sets
mod Routing
mod Services
mod Connections
