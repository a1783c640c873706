-- ===== src/Client.antt =====
-- The client of the service that is a `MerkleTree`: `MongoMerkle` of src/kvpair.rs.
pub mod Calls
pub mod Tree
pub mod Delivery
pub mod Inner
pub mod Parent
pub mod Leaf
pub mod SetLeaf
pub mod Walk
pub mod Climb
pub mod Update
