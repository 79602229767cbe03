-- ===== src/Auth.antt =====
-- engine/web/auth.go: session tokens and the admin password.
pub mod Session
pub mod Accepts
pub mod Admin
pub mod Codec
mod Tests
