-- ===== src/Server.antt =====
-- engine/web/main.go: the session key, the admin hash and the scheduler of a server that starts.
pub mod Boot
pub mod Restart
pub mod Schedule
mod Tests
