-- ===== src/Index/Files.antt =====
-- Regular files as the index holds them, byte by byte.
mod Defs
pub use Defs.*
pub mod Writing
pub mod Resizing
pub mod Starting
pub mod Keeping
pub mod Staying
