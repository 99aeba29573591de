-- ===== src/Chunks.antt =====
-- internal/chunks: the chunk store over an object store that is a parameter.
pub mod Ids
pub mod Store
pub mod Cache
pub mod ChunkStore
pub mod AppendOnly
pub mod Completing
pub mod Starting
pub mod Recovering
pub mod Broker
pub mod Backing
pub mod Flushing
pub mod Syncing
pub mod Coherence
pub mod Reading
pub mod S3
pub mod Local
pub mod Flight
