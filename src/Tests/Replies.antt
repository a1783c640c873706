-- ===== src/Tests/Replies.antt =====
-- The laws of the handlers at concrete inputs: the first requests for a new contract.
use zkc_state.Prelude.{◌≡◌, refl, arith, [], ◌∷◌, Option, some, none}
use zkc_state.Outcome.{ok, err}
use zkc_state.Hash.{Hash}
use zkc_state.Merkle.Bounds.{node_at}
use zkc_state.Merkle.Spec.{Tree, leaf, turns, root, replace}
use zkc_state.Kvpair.Hash.{default_contract_id}
use zkc_state.Kvpair.Combine.{IsField, combine}
use zkc_state.Kvpair.Defaults.{default_at, default_at-IsField}
use zkc_state.Kvpair.Node.{new_simple_leaf}
use zkc_state.Kvpair.Record.{MerkleRecord}
use zkc_state.Kvpair.Node.{node_of_record, record_of_node}
use zkc_state.Kvpair.Combine.{hash_children_lem}
use zkc_state.Service.Invariant.{Canonical}
use zkc_state.Service.Conversions.{message_of, node_of_record-record_of_node}
use zkc_state.Hash.{zeros32}
use zkc_state.Service.Request.{
  Request, GetRootRequest, SetRootRequest, SetNonLeafRequest, SetLeafRequest, Proof,
}
use zkc_state.Service.Handlers.{set_root, set_leaf}
use zkc_state.Errors.{status_of, inconsistent_data}
use zkc_state.Service.Insert.{Good}
use zkc_state.Service.Parent.{parent_of}
use zkc_state.Service.Queries.{set_non_leaf}
use zkc_state.Service.Collection.{get_merkle_collection_name, get_data_collection_name}
use zkc_state.Service.Refusal.{set_non_leaf_leaves_record}
use zkc_state.Service.Replies.{HoldsFor, set_root_lem, set_leaf_lem}
use zkc_state.Service.Empty.{root-default_tree, leaf-default_tree}
use zkc_state.Tests.Instances.{
  number_crypto, number_crypto_laws, number_crypto-CollisionFree, read-write, write_number,
}
use zkc_state.Tests.Values.{
  seven_not_zero, hash_7, seven, new_tree, host, no_bytes, configured, hash_of_number, held_here,
}
use zkc_state.Tests.Server.{Databases, no_databases, test_server, test_server_laws}

abbrev HoldsHere : Databases → Tree Hash → Type 0
HoldsHere = HoldsFor number_crypto test_server test_server_laws no_bytes host default_contract_id

abbrev root_request : Request GetRootRequest
root_request = record { metadata = λ name. none; inner = record { contract_id = none } }

abbrev root_of_first : Hash
root_of_first = root (combine number_crypto) new_tree

root_of_first-IsField : IsField number_crypto root_of_first
root_of_first-IsField =
    rw (root-default_tree number_crypto number_crypto_laws 32)
      (default_at-IsField number_crypto number_crypto_laws 32)

abbrev set_root_request : Request SetRootRequest
set_root_request = record {
  metadata = λ name. none;
  inner = record { contract_id = none; hash = root_of_first.bytes };
}

set_root_lem_example :
    (s' : Databases) × (set_root number_crypto test_server no_bytes host set_root_request
        no_databases
      ≡ (ok root_of_first.bytes, s'))
    × HoldsHere s' new_tree
set_root_lem_example =
    set_root_lem number_crypto test_server test_server_laws no_bytes host default_contract_id
      number_crypto_laws number_crypto-CollisionFree new_tree set_root_request no_databases refl
      (configured set_root_request none) (hash_of_number root_of_first root_of_first-IsField)
      held_here.valid held_here.fields held_here.tree

abbrev set_leaf_request : Request SetLeafRequest
set_leaf_request = record {
  metadata = λ name. none;
  inner = record {
    contract_id = none;
    index = node_at 32 6;
    hash = some (write_number 7);
    bytes = none;
    proof_type = 2;
  };
}

set_leaf_lem_example :
    (s' : Databases) × (answer : Option Proof) × (set_leaf number_crypto test_server no_bytes host
        set_leaf_request no_databases
      ≡ (ok (record { node = some (new_simple_leaf (node_at 32 6) hash_7); proof = answer }), s'))
    × HoldsHere s' (replace (turns 32 6) new_tree (leaf hash_7))
set_leaf_lem_example =
    set_leaf_lem number_crypto test_server test_server_laws no_bytes host default_contract_id
      number_crypto_laws number_crypto-CollisionFree 6 new_tree
      (default_at number_crypto number_crypto_laws 0) hash_7 set_leaf_request (write_number 7)
      no_databases (λ p. ([], refl)) refl (configured set_leaf_request none) refl refl refl
      (hash_of_number hash_7 (7, read-write 7)) (omega arith)
      (leaf-default_tree number_crypto number_crypto_laws 6) (7, read-write 7) held_here

abbrev inner_record : MerkleRecord
inner_record = record {
  index = 4;
  hash = combine number_crypto hash_7 hash_7;
  left = hash_7;
  right = hash_7;
  bytes = zeros32;
}

inner_record-Canonical : Canonical number_crypto inner_record
inner_record-Canonical = record {
  u64 = omega arith;
  no_data = refl;
  inner = λ above. (seven, seven, refl);
  leaf = λ below. absurd (omega arith);
}

node_of_record-record_of_node_example :
    (node_of_record {M = Unit {0}} inner_record ≡ ok (message_of inner_record))
    × (record_of_node {M = Unit {0}} number_crypto (message_of inner_record) ≡ ok inner_record)
node_of_record-record_of_node_example =
    node_of_record-record_of_node number_crypto number_crypto_laws {M = Unit {0}} inner_record
      inner_record-Canonical (omega arith)
      (hash_of_number (combine number_crypto hash_7 hash_7)
        (hash_children_lem number_crypto number_crypto_laws {E = Unit {0}} hash_7 hash_7 seven
          seven).1)
      (hash_of_number hash_7 seven) (hash_of_number hash_7 seven)

abbrev below_request : Request SetNonLeafRequest
below_request = record {
  metadata = λ name. none;
  inner = record {
    contract_id = none;
    index = node_at 32 6;
    hash = none;
    left_child_hash = write_number 7;
    right_child_hash = write_number 7;
  };
}

set_non_leaf_leaves_record_example :
    (s' : Databases) × (set_non_leaf number_crypto test_server no_bytes host below_request
        no_databases
      ≡ (err (status_of (inconsistent_data "Unknown node type")), s'))
    × (test_server_laws.documents (get_merkle_collection_name number_crypto default_contract_id) s'
        ≡ parent_of number_crypto test_server test_server_laws
            (get_merkle_collection_name number_crypto default_contract_id)
            (get_data_collection_name number_crypto default_contract_id)
            (node_at 32 6)
            hash_7
            hash_7
          ∷ [])
    × (¬ Good number_crypto test_server test_server_laws
        (get_merkle_collection_name number_crypto default_contract_id)
        (get_data_collection_name number_crypto default_contract_id)
        s')
set_non_leaf_leaves_record_example =
    set_non_leaf_leaves_record number_crypto test_server test_server_laws no_bytes
      number_crypto_laws number_crypto-CollisionFree host default_contract_id 6 hash_7 hash_7
      below_request no_databases refl (configured below_request none) refl refl
      (hash_of_number hash_7 seven) (hash_of_number hash_7 seven) (omega arith) seven seven
      seven_not_zero (λ r inside ei eh. inside)
