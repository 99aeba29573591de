-- ===== src/Chunks/Flight.antt =====
-- internal/chunks/cache.go: concurrent misses of the cache are collapsed into one fetch.
mod Defs
unfoldable pub use Defs.*
pub mod Flying
pub mod Collapsing
pub mod Answers
