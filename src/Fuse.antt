-- ===== src/Fuse.antt =====
-- internal/fuse/fs.go: open files over the index and the chunk store.
pub mod Replies
pub mod Files
pub mod Copying
pub mod Writing
pub mod Reading
pub mod Completing
pub mod Nodes
pub mod ReadBack
pub mod RoundTrip
pub mod Syncing
pub mod Session
