-- ===== src/Tests/Faults.antt =====
-- Tests of the service against a server that can fail.
use mathlib.Core.Path.{subst}
use zkc_state.Prelude.{
  ℕ, ◌≡◌, ◌⊎◌, refl, inr, arith, [], ◌∷◌, Option, none, some, ◌==◌, if◌then◌else◌,
}
use zkc_state.Outcome.{ok, err}
use zkc_state.Hash.{Hash}
use zkc_state.Errors.{mongodb, Status}
use zkc_state.Merkle.Bounds.{node_at}
use zkc_state.Merkle.Path.{leaf_check-leaf, get_path-leaf}
use zkc_state.Merkle.Map.{tree_of}
use zkc_state.Service.LeafData.{leaf_message}
use zkc_state.Merkle.Node.{MerkleProof}
use zkc_state.Merkle.Spec.{Tree, leaf, turns, replace}
use zkc_state.Kvpair.Hash.{default_contract_id}
use zkc_state.Kvpair.Record.{new_leaf}
use zkc_state.Service.Mongo.{Mongo}
use zkc_state.Service.Collection.{
  MongoCollection, get_leaf_and_proof, must_get_root_merkle_record, set_leaf_and_get_proof,
  get_merkle_collection_name, get_data_collection_name,
}
use zkc_state.Service.Request.{Request, SetLeafRequest, Proof}
use zkc_state.Service.Handlers.{leaf_hash, set_leaf}
use zkc_state.Service.Fetch.{plain}
use zkc_state.Service.Leaf.{Holds, proof_of}
use zkc_state.Service.Empty.{leaf-default_tree}
use zkc_state.Service.Faults.{strike, Fault, works, lost_request, lost_reply, faulty}
use zkc_state.Service.Faults.Atomic.{set_leaf_retry}
use zkc_state.Service.Faults.Handler.{set_leaf_request_atomic}
use zkc_state.Service.Faults.Prefix.{PrefixDone, set_leaves_prefix}
use zkc_state.Service.Writes.{Writes, set_leaves, defaults, default_tree-tree_of}
use zkc_state.Tests.Instances.{number_crypto, number_crypto_laws, number_crypto-CollisionFree}
use zkc_state.Tests.Server.{Databases, no_databases, test_server, test_server_laws}
use zkc_state.Tests.Values.{
  hash_9, hash_7, nine, seven, new_tree, old_hash, HoldsNow, held_now, opened, host, no_bytes,
  configured, hash_of_number, held_here,
}

-- The reply of the call 50 is lost.
abbrev lost_at_50 : ℕ → Fault (Unit {0})
lost_at_50 i = if i == 50 then lost_reply tt else works

abbrev failing_server : Mongo
failing_server = faulty test_server lost_at_50

abbrev with_nine : Tree Hash
with_nine = replace (turns 32 3) new_tree (leaf hash_9)

abbrev proof_of_nine : MerkleProof Hash
proof_of_nine =
    proof_of number_crypto test_server test_server_laws "MERKLEDATA_00" "DATAHASH_00" new_tree
      hash_9 3

abbrev failing_collection : MongoCollection (Unit {0})
failing_collection = plain number_crypto failing_server "MERKLEDATA_00" "DATAHASH_00"

-- Every request is lost.
abbrev lost_now : ℕ → Fault (Unit {0})
lost_now i = lost_request tt

refused :
    set_leaf_and_get_proof number_crypto
      (faulty test_server lost_now)
      (plain number_crypto (faulty test_server lost_now) "MERKLEDATA_00" "DATAHASH_00")
      (new_leaf (node_at 32 3) hash_9)
      (no_databases, 0)
    ≡ (err (mongodb tt), (no_databases, 1))
unfolding set_leaf_and_get_proof get_leaf_and_proof must_get_root_merkle_record strike
refused =
    rw
      (
        leaf_check-leaf 32 3 (omega arith) (omega arith),
        get_path-leaf 32 3 (omega arith) (omega arith),
      )
      refl

set_leaf_retry_example :
    (p : MerkleProof Hash) × (s'' : Databases) × (set_leaf_and_get_proof number_crypto test_server
        opened
        (new_leaf (node_at 32 3) hash_9)
        no_databases
      ≡ (ok p, s''))
    × HoldsNow s'' with_nine
set_leaf_retry_example =
    set_leaf_retry number_crypto test_server test_server_laws number_crypto_laws
      number_crypto-CollisionFree "MERKLEDATA_00" "DATAHASH_00" lost_now 3 0 1 new_tree old_hash
      hash_9 no_databases no_databases (mongodb tt) (omega arith)
      (leaf-default_tree number_crypto number_crypto_laws 3) nine held_now refused

abbrev three_writes : Writes
three_writes = (7, hash_7) ∷ (3, hash_9) ∷ (3, hash_7) ∷ []

-- The tree of a new collection.
new_HoldsNow : HoldsNow no_databases (tree_of 32 0 (defaults number_crypto number_crypto_laws))
new_HoldsNow =
    subst (HoldsNow no_databases) (default_tree-tree_of number_crypto number_crypto_laws 32 0)
      held_now

set_leaves_prefix_example :
    PrefixDone number_crypto test_server test_server_laws number_crypto_laws
      number_crypto-CollisionFree "MERKLEDATA_00" "DATAHASH_00" lost_at_50 three_writes
      (defaults number_crypto number_crypto_laws)
      (set_leaves number_crypto failing_server failing_collection three_writes (no_databases, 0))
set_leaves_prefix_example =
    set_leaves_prefix number_crypto test_server test_server_laws number_crypto_laws
      number_crypto-CollisionFree "MERKLEDATA_00" "DATAHASH_00" lost_at_50 three_writes
      (defaults number_crypto number_crypto_laws) no_databases 0
      (omega arith, seven, (omega arith, nine, (omega arith, seven, tt))) new_HoldsNow

abbrev leaf_request : Request SetLeafRequest
leaf_request = record {
  metadata = λ name. none;
  inner = record {
    contract_id = none;
    index = node_at 32 3;
    hash = some hash_7.bytes;
    bytes = some (4 ∷ []);
    proof_type = 0;
  };
}

abbrev with_seven : Tree Hash
with_seven = replace (turns 32 3) new_tree (leaf hash_7)

abbrev HoldsHere : Databases → Tree Hash → Type 0
HoldsHere =
    Holds number_crypto test_server test_server_laws
      (get_merkle_collection_name number_crypto default_contract_id)
      (get_data_collection_name number_crypto default_contract_id)

given_hash :
    leaf_hash number_crypto test_server no_bytes (some hash_7.bytes) (4 ∷ []) no_databases
    ≡ (ok hash_7, no_databases)
unfolding leaf_hash
given_hash = rw (hash_of_number hash_7 seven) refl

set_leaf_request_atomic_example :
    ((s' : Databases) × (calls' : ℕ) × (answer : Option Proof) × (set_leaf number_crypto
          failing_server no_bytes host leaf_request
          (no_databases, 0)
        ≡ (
          ok (record { node = some (leaf_message (node_at 32 3) hash_7 (4 ∷ [])); proof = answer }),
          (s', calls'),
        ))
      × HoldsHere s' with_seven)
    ⊎ ((e : Status (Unit {0})) × (s' : Databases) × (calls' : ℕ) × (set_leaf number_crypto
            failing_server no_bytes host leaf_request
            (no_databases, 0)
          ≡ (err e, (s', calls')))
        × (HoldsHere s' new_tree ⊎ HoldsHere s' with_seven))
set_leaf_request_atomic_example =
    set_leaf_request_atomic number_crypto test_server test_server_laws no_bytes number_crypto_laws
      number_crypto-CollisionFree host default_contract_id lost_at_50 3 0 new_tree old_hash hash_7
      (leaf_message (node_at 32 3) hash_7 (4 ∷ [])) leaf_request no_databases (λ p. ([], refl)) refl
      (configured leaf_request none) refl (inr (4 ∷ [], refl, given_hash, refl)) (omega arith)
      (leaf-default_tree number_crypto number_crypto_laws 3) seven held_here
