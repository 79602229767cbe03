-- ===== src/Terminal.antt =====
-- engine/web/terminal.go: the web terminal.
pub mod Message
pub mod Session
pub mod Slots
mod Tests
