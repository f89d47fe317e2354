-- ===== src/Storage.antt =====
-- src/storage.rs: the storage engine.
pub mod Fs
pub mod Io
pub mod Runs
pub mod Calls
pub mod Types
pub mod Names
pub mod Json
pub mod Buckets
pub mod Objects
pub mod Copy
pub mod Cleanup
pub mod Listing
pub mod Atomic
pub mod Live
pub mod Multipart
