-- ===== src/Tests/Serving.antt =====
-- Tests of a service that answers requests one after the other.
use zkc_state.Prelude.{ℕ, ◌≡◌, refl, arith, [], ◌∷◌, none, ◌==◌, if◌then◌else◌}
use zkc_state.Outcome.{ok}
use zkc_state.Hash.{bytes_eq, hash_eq}
use zkc_state.Kvpair.Hash.{hash_of_slice, to_array32, hash_children}
use zkc_state.Kvpair.Node.{Node, node_of_record}
use zkc_state.Kvpair.Record.{new_non_leaf}
use zkc_state.Merkle.Index.{get_node_type}
use zkc_state.Service.Collection.{
  insert_non_leaf_node, must_get_merkle_record, get_merkle_collection_name,
}
use zkc_state.Service.Session.{new_collection}
use zkc_state.Service.Handlers.{open_collection}
use zkc_state.Service.Request.{Request, GetNonLeafRequest, get_contract_id}
use zkc_state.Service.Empty.{empty_Holds}
use zkc_state.Service.Queries.{get_non_leaf, set_non_leaf, check_children}
use zkc_state.Service.Faults.{Fault, works, lost_reply, faulty, strike}
use zkc_state.Service.Faults.Lookups.{Sound}
use zkc_state.Service.Faults.Serving.{
  AnyRequest, set_leaf_request, set_non_leaf_request, serve, serve_all, Sound-serve_all,
}
use zkc_state.Service.Faults.Authentic.{IsAuthentic, inner_message, served-IsAuthentic}
use zkc_state.Tests.Instances.{
  number_crypto, number_crypto_laws, number_crypto-CollisionFree, write_number, read_number, pair,
  square,
}
use zkc_state.Tests.Server.{Databases, no_databases, test_server, test_server_laws, put, find_in}
use zkc_state.Tests.Values.{hash_7, host, no_bytes}

-- The reply of the call 1 is lost.
abbrev second_lost : ℕ → Fault (Unit {0})
second_lost i = if i == 1 then lost_reply tt else works

abbrev inner_request : AnyRequest
inner_request = set_non_leaf_request (record {
  metadata = λ name. none;
  inner = record {
    contract_id = none;
    index = 4;
    hash = none;
    left_child_hash = write_number 7;
    right_child_hash = write_number 7;
  };
})

abbrev leaf_request : AnyRequest
leaf_request = set_leaf_request (record {
  metadata = λ name. none;
  inner = record { contract_id = none; index = 4; hash = none; bytes = none; proof_type = 0 };
})

abbrev AllSound : Databases → Type 0
AllSound =
    Sound number_crypto test_server test_server_laws no_bytes number_crypto_laws
      number_crypto-CollisionFree host refl second_lost

no_databases-AllSound : AllSound no_databases
no_databases-AllSound = λ n m.
    (empty_Holds number_crypto number_crypto_laws test_server test_server_laws n m no_databases
      (refl, refl)).valid

Sound-serve_all_example :
    AllSound
      (serve_all number_crypto
        (faulty test_server second_lost)
        no_bytes
        host
        (inner_request ∷ leaf_request ∷ inner_request ∷ [])
        (no_databases, 0)).0
Sound-serve_all_example =
    Sound-serve_all number_crypto test_server test_server_laws no_bytes number_crypto_laws
      number_crypto-CollisionFree host refl second_lost
      (inner_request ∷ leaf_request ∷ inner_request ∷ []) (no_databases, 0)
      (omega arith, (tt, (omega arith, tt))) no_databases-AllSound

abbrev query : Request GetNonLeafRequest
query = record {
  metadata = λ name. none;
  inner = record { contract_id = none; index = 4; hash = write_number (pair 7 7) };
}

abbrev shown : Node
shown = inner_message 4 (record { bytes = write_number (pair 7 7) }) hash_7 hash_7

-- The record was written, though the reply to the write was lost.
replied :
    (s' : Databases) × (get_non_leaf number_crypto test_server no_bytes host query
        (serve_all number_crypto
          (faulty test_server second_lost)
          no_bytes
          host
          (inner_request ∷ [])
          (no_databases, 0)).0
      ≡ (ok shown, s'))
unfolding get_non_leaf set_non_leaf serve serve_all insert_non_leaf_node must_get_merkle_record
    check_children open_collection new_collection hash_of_slice to_array32 get_contract_id
    new_non_leaf hash_children node_of_record strike put find_in read_number pair square
    get_node_type hash_eq bytes_eq get_merkle_collection_name
replied = (_, refl)

served-IsAuthentic_example :
    IsAuthentic number_crypto test_server test_server_laws no_bytes number_crypto_laws
      number_crypto-CollisionFree host refl query shown
served-IsAuthentic_example =
    served-IsAuthentic number_crypto test_server test_server_laws no_bytes number_crypto_laws
      number_crypto-CollisionFree host refl second_lost (inner_request ∷ []) query shown
      (no_databases, 0) replied.0 (omega arith, tt) no_databases-AllSound (omega arith) replied.1
