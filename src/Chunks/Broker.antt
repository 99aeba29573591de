-- ===== src/Chunks/Broker.antt =====
-- internal/chunks/broker.go: the object store behind a broker of presigned URLs.
mod Defs
unfoldable pub use Defs.*
mod Requests
unfoldable pub use Requests.*
pub mod Retrying
pub mod Attempts
pub mod Storing
