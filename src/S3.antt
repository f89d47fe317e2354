-- ===== src/S3.antt =====
-- src/s3.rs: the REST API.
pub mod Request
pub mod Range
pub mod Conditions
pub mod Dispatch
pub mod Http
pub mod Payload
pub mod Document
pub mod Handlers
pub mod Server
