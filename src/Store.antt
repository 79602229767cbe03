-- ===== src/Store.antt =====
-- engine/web/store.go: the run history and the audit log. The SQL statements are part of the source
-- and are modelled as functions on the table; `fails` says that the database engine refuses the
-- statement, and the clock's text is an argument.
pub mod Table
pub mod Lookup
pub mod Lifecycle
pub mod Pages
pub mod Refines
unfoldable pub use Table.*
mod Tests
