-- ===== src/Tests/Data.antt =====
-- The laws of the data behind the leaves, and of stored documents, at concrete inputs.
use zkc_state.Prelude.{ℕ, ◌≡◌, ◌↔◌, refl, arith, ◌⊎◌, List, [], ◌∷◌, Option, some, none}
use zkc_state.Outcome.{ok, err}
use zkc_state.Poseidon
use zkc_state.Poseidon.Input.{written, hash_lem}
use zkc_state.Hash.{Bytes}
use zkc_state.Merkle.Bounds.{node_at}
use zkc_state.Kvpair.Hash.{default_contract_id}
use zkc_state.Kvpair.Record.{MerkleRecord}
use zkc_state.Kvpair.Bson.{
  BsonApi, Document, document_of_record, record_of_document, index_and_hash_filter,
}
use zkc_state.Kvpair.Stored.{Fits, record_of_document-document_of_record, index_and_hash_filter_lem}
use zkc_state.Service.Request.{
  Request, DataHashRecordRequest, GetLeafRequest, SetLeafRequest, Proof, mode_store, mode_fetch,
}
use zkc_state.Service.Collection.{get_data_collection_name}
use zkc_state.Service.Queries.{data_hash_record}
use zkc_state.Service.Handlers.{set_leaf, get_leaf, leaf_hash}
use zkc_state.Service.Empty.{leaf-default_tree}
use zkc_state.Service.DataRecords.{OneEach, store_fetch}
use zkc_state.Service.LeafData.{leaf_message}
use zkc_state.Service.DataLeaf.{set_get_data}
use zkc_state.Tests.Instances.{
  number_crypto, number_crypto_laws, number_crypto-CollisionFree, write_number,
}
use zkc_state.Tests.Server.{Databases, no_databases, test_server, test_server_laws}
use zkc_state.Tests.Values.{
  hash_9, hash_7, nine, new_tree, old_hash, no_default, no_empty, host, no_bytes, configured,
  hash_of_number, held_here,
}

abbrev data_request : ℕ → Request DataHashRecordRequest
data_request mode = record {
  metadata = λ name. none;
  inner = record {
    contract_id = none;
    hash = some (write_number 9);
    bytes = some (1 ∷ 2 ∷ []);
    mode = some mode;
  };
}

store_fetch_example :
    (s' : Databases) × (data_hash_record number_crypto test_server no_bytes host
        (data_request mode_store)
        no_databases
      ≡ (ok (record { hash = write_number 9; bytes = 1 ∷ 2 ∷ [] }), s'))
    × (data_hash_record number_crypto test_server no_bytes host (data_request mode_fetch) s'
        ≡ (ok (record { hash = write_number 9; bytes = 1 ∷ 2 ∷ [] }), s'))
    × OneEach
        (test_server_laws.records (get_data_collection_name number_crypto default_contract_id) s')
store_fetch_example =
    store_fetch number_crypto test_server test_server_laws no_bytes host default_contract_id
      (data_request mode_store) (data_request mode_fetch) (write_number 9) (1 ∷ 2 ∷ []) hash_9 none
      no_databases refl (configured (data_request mode_store) none)
      (configured (data_request mode_fetch) none) refl refl refl refl refl
      (hash_of_number hash_9 nine) no_empty (λ x y ix iy e. absurd ix) (λ r inside e. inside)

abbrev set_request : Request SetLeafRequest
set_request = record {
  metadata = λ name. none;
  inner = record {
    contract_id = none;
    index = node_at 32 6;
    hash = some (write_number 9);
    bytes = some (1 ∷ 2 ∷ []);
    proof_type = 2;
  };
}

abbrev get_request : Request GetLeafRequest
get_request = record {
  metadata = λ name. none;
  inner = record { contract_id = none; index = node_at 32 6; hash = none; proof_type = 2 };
}

hash_of_request :
    leaf_hash number_crypto test_server no_bytes (some (write_number 9)) (1 ∷ 2 ∷ []) no_databases
    ≡ (ok hash_9, no_databases)
unfolding leaf_hash
hash_of_request = rw (hash_of_number hash_9 nine) refl

set_get_data_example :
    (s' : Databases) × (p q : Option Proof) × (set_leaf number_crypto test_server no_bytes host
        set_request no_databases
      ≡ (
        ok (record { node = some (leaf_message (node_at 32 6) hash_9 (1 ∷ 2 ∷ [])); proof = p }),
        s',
      ))
    × (get_leaf number_crypto test_server no_bytes host get_request s' ≡ (
      ok (record { node = some (leaf_message (node_at 32 6) hash_9 (1 ∷ 2 ∷ [])); proof = q }),
      s',
    ))
set_get_data_example =
    set_get_data number_crypto test_server test_server_laws no_bytes number_crypto_laws
      number_crypto-CollisionFree host default_contract_id 6 new_tree old_hash hash_9 none
      set_request get_request (1 ∷ 2 ∷ []) no_databases (λ p. ([], refl)) refl
      (configured set_request none) (configured get_request none) refl refl refl refl
      hash_of_request (omega arith) (leaf-default_tree number_crypto number_crypto_laws 6) nine
      no_default no_empty (λ x y ix iy e. absurd ix) (λ r inside e. inside) held_here

-- Documents whose values are their bytes.
abbrev bytes_api : BsonApi
bytes_api = record {
  Bson = Bytes;
  binary = λ b. b;
  read_binary = λ b. some b;
  Failure = Unit {0};
  invalid_value = tt;
  missing_field = λ name. tt;
}

abbrev pair_record : MerkleRecord
pair_record = record {
  index = 5;
  hash = hash_9;
  left = hash_7;
  right = hash_7;
  bytes = write_number 0;
}

record_of_document-document_of_record_example :
    (d : Document bytes_api) × (document_of_record bytes_api pair_record ≡ ok d)
    × (record_of_document bytes_api d ≡ ok pair_record)
record_of_document-document_of_record_example =
    record_of_document-document_of_record bytes_api (λ b. refl) pair_record (omega arith) refl refl
      refl refl

pair_document : (d : Document bytes_api) × (document_of_record bytes_api pair_record ≡ ok d)
pair_document =
    let (d, e, _) =
      record_of_document-document_of_record bytes_api (λ b. refl) pair_record (omega arith) refl
        refl refl refl in
    (d, e)

index_and_hash_filter_lem_example :
    Fits bytes_api (λ b. refl) (index_and_hash_filter bytes_api 5 hash_9) pair_document.0
    ↔ ((pair_record.index ≡ 5) × (pair_record.hash ≡ hash_9))
index_and_hash_filter_lem_example =
    index_and_hash_filter_lem bytes_api (λ b. refl) 5 hash_9 pair_record pair_document.0
      (omega arith) (omega arith) pair_document.1

abbrev busy : Databases
busy = record no_databases { merkle = λ n. record { stored = pair_record ∷ []; root = none } }

hash_lem_example :
    ((fs : List ℕ) × (write_number 9 ≡ written number_crypto fs)
      × (Poseidon.hash number_crypto {M = Unit {0}} (write_number 9)
          ≡ ok (Poseidon.hash_field_elements number_crypto fs)))
    ⊎ ((Poseidon.hash number_crypto {M = Unit {0}} (write_number 9)
          ≡ err (Poseidon.not_field_elements number_crypto {M = Unit {0}}))
        × ((fs : List ℕ) → write_number 9 ≡ written number_crypto fs → ⊥))
hash_lem_example = hash_lem number_crypto (Unit {0}) number_crypto_laws (λ f. refl) (write_number 9)
