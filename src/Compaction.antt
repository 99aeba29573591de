-- ===== src/Compaction.antt =====
-- internal/compaction/compactor.go: compaction of chunks with many bytes that no extent holds.
mod Defs
unfoldable pub use Defs.*
mod Cycle
unfoldable pub use Cycle.*
pub mod Persisting
pub mod Keeping
