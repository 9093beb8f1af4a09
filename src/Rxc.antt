-- ===== src/Rxc.antt =====
-- server-rxc-job.go and server-cts-rxc.go: remote execution jobs on the server.
pub mod Output
pub mod Run
pub mod Job
pub mod Expiry
pub mod Registry
mod Tests
