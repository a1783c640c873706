-- ===== src/Service/Queries.antt =====
-- The handlers of inner nodes, of the Poseidon hash and of the data behind a hash (`impl KvPair for
-- MongoKvPair`, src/service.rs).
use zkc_state.Prelude.{Option, none, some, ◌==◌, if◌then◌else◌}
use zkc_state.Action.{◌>>=◌, ◌>>◌, pure, lift}
use zkc_state.Hash.{Bytes, Hash}
use zkc_state.Crypto.{Crypto}
use zkc_state.Errors.{text}
use zkc_state.Merkle.Node.{MerkleProof}
use zkc_state.Poseidon
use zkc_state.Kvpair.Hash.{hash_of_slice, validate_children}
use zkc_state.Kvpair.Record.{DataHashRecord}
use zkc_state.Kvpair.Node.{Node, node_of_record}
use zkc_state.Service.Mongo.{Mongo}
use zkc_state.Service.Collection.{
  Col, must_get_merkle_record, insert_non_leaf_node, insert_datahash_record,
  must_get_datahash_record,
}
use zkc_state.Service.Request.{
  Request, GetNonLeafRequest, SetNonLeafRequest, PoseidonHashRequest, DataHashRecordRequest,
  DataHashRecordResponse, mode_store, mode_fetch, MongoKvPair, get_contract_id,
}
use zkc_state.Service.Handlers.{Reply, inside, checked, refuse, open_collection}

module _ (c : Crypto) (db : Mongo) (serialize : MerkleProof Hash → Option Bytes) where
  open db use {State, MongoError}

  unfoldable pub get_non_leaf : MongoKvPair → Request GetNonLeafRequest → Reply c db serialize Node
  get_non_leaf server request = do
    id ← lift (get_contract_id c server request request.inner.contract_id)
    col ← open_collection c db serialize server id
    hash ← checked c db serialize (hash_of_slice request.inner.hash)
    r ← inside c db serialize (must_get_merkle_record c db col request.inner.index hash)
    checked c db serialize (node_of_record r)

  -- The check of the request's hash, where it has one.
  unfoldable pub check_children : Option Bytes → Hash → Hash → Reply c db serialize (Unit {0})
  check_children none left right = pure tt
  check_children (some bytes) left right = do
    hash ← checked c db serialize (hash_of_slice bytes)
    checked c db serialize (validate_children c hash left right)

  unfoldable pub set_non_leaf : MongoKvPair → Request SetNonLeafRequest → Reply c db serialize Node
  set_non_leaf server request = do
    id ← lift (get_contract_id c server request request.inner.contract_id)
    col ← open_collection c db serialize server id
    left ← checked c db serialize (hash_of_slice request.inner.left_child_hash)
    right ← checked c db serialize (hash_of_slice request.inner.right_child_hash)
    check_children request.inner.hash left right
    r ← inside c db serialize (insert_non_leaf_node c db col request.inner.index left right)
    checked c db serialize (node_of_record r)

  unfoldable pub poseidon_hash :
      MongoKvPair → Request PoseidonHashRequest → Reply c db serialize Bytes
  poseidon_hash server request = do
    lift (get_contract_id c server request request.inner.contract_id)
    checked c db serialize (Poseidon.hash c request.inner.bytes)

  unfoldable pub fetch_record : Col c db → Option Bytes → Reply c db serialize DataHashRecord
  fetch_record col none = refuse c db serialize (text "Hash is required for fetch mode")
  fetch_record col (some bytes) = do
    hash ← checked c db serialize (hash_of_slice bytes)
    inside c db serialize (must_get_datahash_record c db col hash)

  unfoldable pub store_record :
      Col c db → Option Bytes → Option Bytes → Reply c db serialize DataHashRecord
  store_record col (some bytes) (some hash) = do
    hash' ← checked c db serialize (hash_of_slice hash)
    let r : DataHashRecord = record { hash = hash'; bytes = bytes }
    inside c db serialize (insert_datahash_record c db col r)
    pure r
  store_record col bytes hash =
      refuse c db serialize (text "Both data and hash are required for store mode")

  -- The match on the mode.
  unfoldable pub record_for : Col c db → DataHashRecordRequest → Reply c db serialize DataHashRecord
  record_for col message = elim message.mode [
    | none ↦
        refuse c db serialize (text "Invalid mode for data hash record, fetch or store expected")
    | some mode ↦
        if mode == mode_fetch
        then fetch_record col message.hash
        else if mode == mode_store
        then store_record col message.bytes message.hash
        else refuse c db serialize
            (text "Invalid mode for data hash record, fetch or store expected")
  ]

  unfoldable pub data_hash_record :
      MongoKvPair → Request DataHashRecordRequest → Reply c db serialize DataHashRecordResponse
  data_hash_record server request = do
    id ← lift (get_contract_id c server request request.inner.contract_id)
    col ← open_collection c db serialize server id
    r ← record_for col request.inner
    pure (record { hash = (r.hash).bytes; bytes = r.bytes })
