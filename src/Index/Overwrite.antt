-- ===== src/Index/Overwrite.antt =====
-- internal/index/index.go: the extent list of a file and its overwriting.
mod Defs
unfoldable pub use Defs.*
