-- ===== src/Command.antt =====
-- client-cts-rxc.go: how a client makes the arguments of a command from the script of an rxc and from
-- its profile. A script is the list of its runes.
pub mod Escape
pub mod Split
pub mod Profile
mod Tests
