-- ===== src/Bulletin.antt =====
-- bulletin.go: the queue of a bulletin board and its subscribers.
pub mod Queue
pub mod Topics
mod Tests
