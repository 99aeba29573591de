-- ===== src/Index/Tree.antt =====
-- internal/index/index.go: directory entries and the life of inodes.
mod Defs
unfoldable pub use Defs.*
