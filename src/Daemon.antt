-- ===== src/Daemon.antt =====
-- cmd/fusey/main.go: how the daemon restores its state, persists it, and compacts it.
mod Defs
unfoldable pub use Defs.*
pub mod Persisting
pub mod Restarting
pub mod Bucket
pub mod Commands
