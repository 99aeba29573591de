-- ===== src/Persist/Saving.antt =====
-- Save, Load, Marshal and Unmarshal (internal/index/persist.go).
mod Defs
unfoldable pub use Defs.*
pub mod RoundTrip
