-- ===== src/Auth.antt =====
-- src/auth.rs: the credential store, the two signature schemes, and the decoder of `aws-chunked`.
pub mod Crypto
pub mod Chunked
pub mod Keys
pub mod Request
pub mod Verify
