-- ===== src/Config.antt =====
-- internal/config/config.go: the configuration from the environment.
mod Defs
unfoldable pub use Defs.*
pub mod Loading
