-- ===== src/Client.antt =====
-- client.go and client-peer.go: the client's connections to servers, their routes and peers.
pub mod Peers
pub mod Routes
pub mod Conns
pub mod Names
pub mod Packets
