-- ===== src/S3/Handlers.antt =====
-- The handlers of src/s3.rs.
pub mod Buckets
pub mod Objects
pub mod Lists
pub mod Uploads
pub mod Puts
pub mod Streams
pub mod Gets
pub mod Ranges
pub mod Sums
pub mod PartPages
pub mod Deletes
