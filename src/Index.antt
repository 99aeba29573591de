-- ===== src/Index.antt =====
-- internal/index: the filesystem index in memory. Every method holds the index's lock for its whole
-- body, so that each is one step on the state.
pub mod Types
pub mod Tree
pub mod Attrs
pub mod Overwrite
pub mod Content
pub mod Files
pub mod Links
pub mod Snapshots
