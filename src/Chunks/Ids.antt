-- ===== src/Chunks/Ids.antt =====
-- Chunk IDs: fmt.Sprintf("chunk-%08d", seq) and the scans that read one back
-- (internal/chunks/chunk_store.go, internal/index/persist.go).
mod Defs
unfoldable pub use Defs.*
pub mod RoundTrip
