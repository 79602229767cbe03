-- ===== src/Collector.antt =====
-- engine/web/collector.go: the summary of a backup run, and the cache of the snapshot list.
pub mod Summary
pub mod Cache
mod Tests
