-- ===== src/Service.antt =====
-- src/service.rs
pub mod Mongo
pub mod Collection
pub mod Session
pub mod Request
pub mod Handlers
pub mod Queries
pub mod Laws
pub mod Invariant
pub mod Fetch
pub mod Insert
pub mod Parent
pub mod Leaf
pub mod Empty
pub mod RoundTrip
pub mod Writes
pub mod Roots
pub mod Rollback
pub mod Isolation
pub mod Interleaving
pub mod History
pub mod Replies
pub mod Conversions
pub mod DataRecords
pub mod LeafData
pub mod DataLeaf
pub mod Setup
pub mod Refusal
pub mod Contract
pub mod Faults
