-- ===== src/Runner.antt =====
-- engine/web/actions.go, from line 96: the run gate, and what a run records in the history.
pub mod Gate
pub mod Calls
pub mod Threads
pub mod Exclusion
pub mod Exec
mod Tests
