-- ===== src/Inputs.antt =====
-- What the web interface accepts: engine/web/dbjobs.go, srcpaths.go, alerts.go and the checks of
-- actions.go.
pub mod Spec
pub mod DbJobs
pub mod ValidJobs
pub mod SourcePaths
pub mod Sources
pub mod DoubleSlash
pub mod Texts
mod Tests
