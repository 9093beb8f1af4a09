-- ===== src/Route.antt =====
-- server.go: the routes that clients open on the server and the peers that connect to them.
pub mod Peers
pub mod Routes
mod Tests
