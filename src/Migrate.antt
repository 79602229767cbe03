-- ===== src/Migrate.antt =====
-- engine/web/migrate.go: moving the backup repository to another remote or path.
pub mod Remote
pub mod Status
pub mod Job
pub mod Rules
pub mod Safety
pub mod Start
pub mod Again
mod Tests
