-- ===== src/Merkle/Node.antt =====
-- The traits `MerkleNode` and `MerkleTree` of src/merkle.rs, as records of their required methods,
-- and `MerkleProof`. `hash` of a tree may panic: the program's implementation unwraps.
use zkc_state.Prelude.{ℕ, Bool, List, Option}
use zkc_state.Outcome.{Outcome}
use zkc_state.Action.{Action}
use zkc_state.Hash.{Bytes}
use zkc_state.Merkle.Error.{MerkleError}

-- `set` may panic, which its implementation does on data that is not 32 bytes long.
pub record MerkleNode (H N : Type 0) : Type 0 where
  pub hash : N → H
  pub index : N → ℕ
  pub set : N → Bytes → Outcome MerkleError N
  pub left : N → Option H
  pub right : N → Option H

pub record MerkleProof (H : Type 0) : Type 0 where
  pub source : H
  pub root : H
  pub assist : List H
  pub index : ℕ

pub record MerkleTree (H N S : Type 0) : Type 0 where
  pub node : MerkleNode H N
  pub eq : H → H → Bool
  pub hash : H → H → Outcome MerkleError H
  pub set_parent : ℕ → H → H → H → Action MerkleError S (Unit {0})
  pub set_leaf : N → Action MerkleError S (Unit {0})
  pub get_node_with_hash : ℕ → H → Action MerkleError S N
  pub get_root_hash : S → H
  pub update_root_hash : H → S → S
