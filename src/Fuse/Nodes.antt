-- ===== src/Fuse/Nodes.antt =====
-- internal/fuse/fs.go: the handlers of Node.
mod Attr
mod Defs
mod Requests
pub mod Keeping
pub mod Holding
pub mod Victims
pub mod Failing
pub mod Crashes
unfoldable pub use Attr.*
unfoldable pub use Defs.*
unfoldable pub use Requests.*
