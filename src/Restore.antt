-- ===== src/Restore.antt =====
-- engine/web/actions.go, lines 21 to 71: where a restore may write.
pub mod Target
pub mod Ancestor
pub mod Lineage
pub mod Confined
mod Tests
