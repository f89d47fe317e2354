-- ===== src/Config.antt =====
-- src/config.rs: the origins for CORS, the credentials and the start of the server.
pub mod Cors
pub mod KeyStore
pub mod Start
pub mod Unset
