-- ===== src/Fuse/Session.antt =====
-- internal/fuse/fs.go: a run of requests.
mod Defs
pub use Defs.*
pub mod Keeping
pub mod Handles
pub mod Contents
pub mod Overwriting
pub mod Refining
pub mod Runs
