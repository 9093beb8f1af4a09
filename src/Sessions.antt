-- ===== src/Sessions.antt =====
-- server-cts-rxc.go, server-cts-rpty.go: the sessions of one client connection, tables by id and by
-- websocket. Pointers to websockets and to job runs are numbers.
pub mod Rxc
mod Tests
