-- ===== src/Chunks/ChunkStore.antt =====
-- internal/chunks/chunk_store.go: the active chunk and the sealed ones. Every method is one step, as
-- the code holds the lock; Read copies the active buffer under it.
mod Defs
unfoldable pub use Defs.*
