-- ===== src/Index/Snapshots.antt =====
-- The snapshots of the index that are saved and loaded.
mod Defs
unfoldable pub use Defs.*
pub mod RoundTrip
