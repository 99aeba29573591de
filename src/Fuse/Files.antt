-- ===== src/Fuse/Files.antt =====
-- FileHandle of internal/fuse/fs.go.
mod Defs
unfoldable pub use Defs.*
