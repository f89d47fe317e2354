-- ===== src/Tests.antt =====
-- Runs at concrete inputs, which show that the hypotheses of the theorems can hold.
pub mod Formats
pub mod Store
pub mod Stream
pub mod Streams
pub mod Atomic
pub mod Buckets
pub mod Auth
pub mod ReadBack
pub mod Crates
pub mod Handlers
pub mod Live
pub mod Server
pub mod Start
