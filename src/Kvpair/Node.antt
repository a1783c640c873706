-- ===== src/Kvpair/Node.antt =====
-- The message `Node` of proto/kvpair.proto, and its conversions (src/kvpair.rs).
use zkc_state.Prelude.{ℕ, [], Option, none, some, ◌==◌, not, if◌then◌else◌}
use zkc_state.Outcome.{Outcome, ok, err, panic, ◌>>=◌, ◌>>◌, assert, ok_or}
use zkc_state.Hash.{Bytes, bytes_eq, Hash, hash_eq}
use zkc_state.Crypto.{Crypto}
use zkc_state.Errors.{Error, invalid_argument, inconsistent_data}
use zkc_state.Merkle.Index.{
  NodeType, node_unspecified, node_leaf, node_non_leaf, node_invalid, node_type_eq, get_node_type,
}
use zkc_state.Kvpair.Hash.{merkle_tree_height, hash_of_slice}
use zkc_state.Kvpair.Record.{MerkleRecord, DataHashRecord, new_leaf, new_non_leaf}

pub record NodeChildren : Type 0 where
  pub left_child_hash : Bytes
  pub right_child_hash : Bytes

pub data NodeData : Type 0 where
  leaf_bytes : Bytes → NodeData
  children : NodeChildren → NodeData

-- An enum field of a message is an `i32`.
abbrev pub number_of : NodeType → ℕ
number_of node_unspecified = 0
number_of node_leaf = 1
number_of node_non_leaf = 2
number_of node_invalid = 3

pub record Node : Type 0 where
  pub index : ℕ
  pub hash : Bytes
  pub node_type : ℕ
  pub node_data : Option NodeData

abbrev pub new_simple_leaf : ℕ → Hash → Node
new_simple_leaf index hash = record {
  index = index;
  hash = hash.bytes;
  node_type = number_of node_leaf;
  node_data = some (leaf_bytes []);
}

module _ {M : Type 0} where
  -- `TryFrom<MerkleRecord> for Node`
  unfoldable pub node_of_record : MerkleRecord → Outcome (Error M) Node
  node_of_record r =
      if not (node_type_eq (get_node_type r.index merkle_tree_height) node_non_leaf)
      then err (inconsistent_data "Unknown node type")
      else (do
        left_child_hash ← ok_or (some r.left) (inconsistent_data "Nonleaf node has no children")
        right_child_hash ← ok_or (some r.right) (inconsistent_data "Nonleaf node has no children")
        ok (record {
          index = r.index;
          hash = r.hash.bytes;
          node_type = number_of (get_node_type r.index merkle_tree_height);
          node_data = some (
              children (record {
                left_child_hash = left_child_hash.bytes;
                right_child_hash = right_child_hash.bytes;
              }));
        }))

  -- What the conversion of the two records does after that of the first.
  abbrev pub or_leaf :
      MerkleRecord → DataHashRecord → Outcome (Error M) Node → Outcome (Error M) Node
  or_leaf r d (ok node) = ok node
  or_leaf r d panic = panic
  or_leaf r d (err e) =
      if not (hash_eq r.hash d.hash)
      then err (invalid_argument "Hash mismatched")
      else if not (node_type_eq (get_node_type r.index merkle_tree_height) node_leaf)
      then err (invalid_argument "Unknown node type")
      else ok (record {
        index = r.index;
        hash = r.hash.bytes;
        node_type = number_of (get_node_type r.index merkle_tree_height);
        node_data = some (leaf_bytes d.bytes);
      })

  -- `TryFrom<(MerkleRecord, DataHashRecord)> for Node`
  unfoldable pub node_of_records : MerkleRecord → DataHashRecord → Outcome (Error M) Node
  node_of_records r d = or_leaf r d (node_of_record r)

  module _ (c : Crypto) where
    abbrev leaf_record : Node → Hash → NodeData → Outcome (Error M) MerkleRecord
    leaf_record n hash (leaf_bytes b) =
        assert (bytes_eq (new_leaf n.index hash).hash.bytes n.hash) >> ok (new_leaf n.index hash)
    leaf_record n hash (children b) = panic

    abbrev non_leaf_record : Node → NodeData → Outcome (Error M) MerkleRecord
    non_leaf_record n (leaf_bytes b) = panic
    non_leaf_record n (children b) = do
      left ← hash_of_slice b.left_child_hash
      right ← hash_of_slice b.right_child_hash
      record' ← new_non_leaf c n.index left right
      assert (bytes_eq (record'.hash).bytes n.hash)
      ok record'

    abbrev dispatch : Node → Hash → Outcome (Error M) MerkleRecord
    dispatch n hash =
        if n.node_type == number_of node_leaf
        then elim n.node_data [ none ↦ panic | some d ↦ leaf_record n hash d ]
        else if n.node_type == number_of node_non_leaf
        then elim n.node_data [ none ↦ panic | some d ↦ non_leaf_record n d ]
        else err (invalid_argument "Invalid node type")

    -- `TryFrom<Node> for MerkleRecord`
    unfoldable pub record_of_node : Node → Outcome (Error M) MerkleRecord
    record_of_node n = do hash ← hash_of_slice n.hash; dispatch n hash
