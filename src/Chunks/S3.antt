-- ===== src/Chunks/S3.antt =====
-- internal/chunks/s3.go: the object store in an S3 bucket.
mod Defs
unfoldable pub use Defs.*
pub mod Listing
pub mod Storing
pub mod Promises
