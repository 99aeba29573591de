-- ===== src/Index/Links.antt =====
-- Link counts: what the nlink of every inode counts, and what each operation on directories does to it.
mod Defs
unfoldable pub use Defs.*
pub mod Counting
pub mod Adding
pub mod Dropping
pub mod Removing
pub mod Moving
pub mod Panics
pub mod Unchanged
