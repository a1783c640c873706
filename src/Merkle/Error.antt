-- ===== src/Merkle/Error.antt =====
-- `MerkleError` (src/merkle.rs).
use zkc_state.Prelude.{ℕ}
use zkc_state.Hash.{Hash}

pub data MerkleErrorCode : Type 0 where
  invalid_leaf_index invalid_hash invalid_depth invalid_index invalid_other : MerkleErrorCode

pub record MerkleError : Type 0 where
  pub source : Hash
  pub index : ℕ
  pub code : MerkleErrorCode
