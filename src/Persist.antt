-- ===== src/Persist.antt =====
-- internal/index/persist.go: the wire form of the index, and saving and loading it.
mod Defs
unfoldable pub use Defs.*
pub mod RoundTrip
pub mod Saving
