-- ===== src/Storage/Atomic.antt =====
-- The writers of src/storage.rs under failed calls and kills.
pub mod Hoare
pub mod Laws
pub mod Steps
pub mod Swap
mod Gc
pub mod Receive
pub mod Put
pub mod PutObject
pub mod GetObject
pub mod Deletes
pub mod Digest
