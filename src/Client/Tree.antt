-- ===== src/Client/Tree.antt =====
-- `impl MerkleTree<Hash, MERKLE_TREE_HEIGHT> for MongoMerkle` (src/kvpair.rs).
use zkc_state.Prelude.{ℕ, Option, some, if◌then◌else◌}
use zkc_state.Outcome.{Outcome, unwrap, map_err}
use zkc_state.Action.{Action, ◌>>=◌, ◌>>◌, pure, lift, map_error}
use zkc_state.Hash.{Hash, hash_eq, zeros32}
use zkc_state.Crypto.{Crypto}
use zkc_state.Errors.{Status, status_of}
use zkc_state.Merkle.Error.{MerkleError, MerkleErrorCode, invalid_depth, invalid_other}
use zkc_state.Merkle.Index.{node_leaf, node_type_eq, get_node_type, boundary_check}
use zkc_state.Merkle.Node.{MerkleTree}
use zkc_state.Kvpair.Hash.{ContractId, merkle_tree_height, default_leaf_data, hash_children}
use zkc_state.Kvpair.Record.{MerkleRecord, record_node, new_record}
use zkc_state.Kvpair.Node.{Node, record_of_node}
use zkc_state.Client.Calls.{
  KvPairClient, MongoMerkle, get_leaf, set_leaf, get_non_leaf, set_non_leaf,
}

-- `ProofType::ProofEmpty`
abbrev pub proof_empty : ℕ
proof_empty = 1

-- `MerkleError::new`
abbrev pub failed : {M : Type 0} → Hash → ℕ → MerkleErrorCode → Status M → MerkleError
failed hash index code e = record { source = hash; index = index; code = code }

abbrev pub construct : {S : Type 0} → S → ContractId → Hash → MongoMerkle S
construct client addr root = record { root_hash = root; contract_id = addr; client = client }

unfoldable pub empty_leaf : Crypto → ℕ → Outcome MerkleError MerkleRecord
empty_leaf c index = let node = record_node c in node.set (new_record index) zeros32

module _ (c : Crypto) {M S : Type 0} (api : KvPairClient M S) where
  unfoldable pub set_parent : ℕ → Hash → Hash → Hash → Action MerkleError (MongoMerkle S) (Unit {0})
  set_parent index hash left right = do
    lift (boundary_check index merkle_tree_height)
    map_error (failed {M = M} hash index invalid_depth)
        (set_non_leaf api index (some hash) left right)
    pure tt

  -- `x.node.unwrap()`, then the conversion of the message
  abbrev pub record_in : Option Node → Action (Status M) (MongoMerkle S) MerkleRecord
  record_in answer = do
    node ← lift (unwrap answer)
    lift (map_err status_of (record_of_node c node))

  -- The response to the call for a leaf, or for an inner node.
  unfoldable pub node_from : ℕ → Hash → Action (Status M) (MongoMerkle S) (Option Node)
  node_from index hash =
      if node_type_eq (get_node_type index merkle_tree_height) node_leaf
      then (get_leaf api index (some hash) proof_empty >>= λ response. pure response.node)
      else get_non_leaf api index hash

  unfoldable pub get_node_with_hash : ℕ → Hash → Action MerkleError (MongoMerkle S) MerkleRecord
  get_node_with_hash index hash =
      map_error (failed {M = M} hash index invalid_other) (node_from index hash >>= record_in)

  unfoldable pub set_leaf_of : MerkleRecord → Action MerkleError (MongoMerkle S) (Unit {0})
  set_leaf_of leaf = do
    lift (boundary_check leaf.index merkle_tree_height)
    map_error (failed {M = M} leaf.hash leaf.index invalid_other)
        (set_leaf api leaf.index default_leaf_data proof_empty)
    pure tt

  abbrev pub mongo_merkle : MerkleTree Hash MerkleRecord (MongoMerkle S)
  mongo_merkle = record {
    node = record_node c;
    eq = hash_eq;
    hash = hash_children c;
    set_parent = set_parent;
    set_leaf = set_leaf_of;
    get_node_with_hash = get_node_with_hash;
    get_root_hash = λ merkle. merkle.root_hash;
    update_root_hash = λ hash merkle. record merkle { root_hash = hash };
  }
