-- ===== src/Chunks/Local.antt =====
-- internal/chunks/local.go: the object store in a directory, for tests and development.
mod Defs
unfoldable pub use Defs.*
pub mod Storing
