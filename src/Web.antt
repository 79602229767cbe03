-- ===== src/Web.antt =====
-- The requests of a browser: the session and CSRF checks of engine/web/api.go, the handlers, and the
-- routes to them.
pub mod Request
pub mod Csrf
pub mod Settings
pub mod Saved
pub mod Actions
pub mod Started
pub mod Pages
pub mod LoggedIn
pub mod Reads
pub mod Seen
pub mod Posts
pub mod Restores
pub mod Restored
pub mod Remotes
pub mod Named
pub mod Added
pub mod Switched
pub mod Listings
pub mod Sorted
pub mod Browsed
pub mod Kept
pub mod Stays
pub mod Destinations
pub mod Looked
pub mod Streams
pub mod Routes
pub mod Guarded
pub mod Bound
pub mod Keeps
pub mod Forged
mod Tests
mod AccessTests
mod DockerTests
mod ForgedTests
