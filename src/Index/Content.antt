-- ===== src/Index/Content.antt =====
-- What an extent list says of each byte of a file.
mod Defs
unfoldable pub use Defs.*
pub mod Pieces
pub mod Writing
pub mod Clobber
pub mod Trimming
