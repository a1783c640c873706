-- ===== src/Tests.antt =====
-- Tests: the parameters they use, and the properties at concrete inputs.
pub mod Instances
pub mod Server
pub mod Values
pub mod Merkle
pub mod Kvpair
pub mod Service
pub mod Histories
pub mod Data
pub mod Client
pub mod Walk
pub mod Replies
pub mod Faults
pub mod Serving
pub mod Contract
pub mod Array
