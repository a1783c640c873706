-- ===== src/Kvpair.antt =====
-- src/kvpair.rs
pub mod Hash
pub mod Record
pub mod Node
pub mod Combine
pub mod Defaults
pub mod Bson
pub mod Stored
