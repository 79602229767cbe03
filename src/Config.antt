-- ===== src/Config.antt =====
-- `config.env`: reading it, checking it and writing it back (engine/web/config.go).
pub mod Load
pub mod Save
pub mod Valid
pub mod Line
pub mod File
mod Tests
mod FileTests
