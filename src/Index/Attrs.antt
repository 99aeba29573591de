-- ===== src/Index/Attrs.antt =====
-- internal/index/index.go: attributes, symlinks and extended attributes.
mod Defs
unfoldable pub use Defs.*
