-- ===== src/Rclone.antt =====
-- engine/web/rclonegui.go and the rclone handlers of api.go.
pub mod Cli
pub mod Args
pub mod Allowed
pub mod Engine
pub mod Gui
pub mod Guarded
mod Tests
