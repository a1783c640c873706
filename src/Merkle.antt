-- ===== src/Merkle.antt =====
-- src/merkle.rs
pub mod Error
pub mod Index
pub mod Bounds
pub mod Path
pub mod Node
pub mod Walk
pub mod Tree
pub mod Spec
pub mod Descend
pub mod Snoc
pub mod Climb
pub mod Valid
pub mod Map
pub mod Update
pub mod Rebuild
pub mod Proof
pub mod Sound
pub mod Prune
pub mod Array
