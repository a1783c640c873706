-- ===== src/Service/Handlers.antt =====
-- The handlers of the root and of leaves (`impl KvPair for MongoKvPair`, src/service.rs).
use zkc_state.Prelude.{ℕ, false, Option, none, some, ◌==◌, not, if◌then◌else◌}
use zkc_state.Outcome.{Outcome, unwrap, unwrap_result, map_err}
use zkc_state.Action.{Action, ◌>>=◌, ◌>>◌, pure, throw, lift, map_error}
use zkc_state.Hash.{Bytes, Hash, hash_eq}
use zkc_state.Crypto.{Crypto}
use zkc_state.Errors.{
  Error, Message, mongodb, invalid_argument, Status, bad_argument, text, status_of,
}
use zkc_state.Merkle.Node.{MerkleProof}
use zkc_state.Poseidon
use zkc_state.Kvpair.Hash.{
  ContractId, merkle_tree_height, hash_of_slice, get_default_hash_for_depth,
}
use zkc_state.Kvpair.Record.{MerkleRecord, DataHashRecord, new_leaf, zero_hash}
use zkc_state.Kvpair.Node.{Node, node_of_records, new_simple_leaf}
use zkc_state.Service.Mongo.{Mongo}
use zkc_state.Service.Collection.{
  Col, must_get_merkle_record, must_get_root_merkle_record, update_root_merkle_record,
  get_leaf_and_proof, set_leaf_and_get_proof, insert_datahash_record, get_datahash_record,
}
use zkc_state.Service.Session.{new_collection, commit}
use zkc_state.Service.Request.{
  Request, GetRootRequest, SetRootRequest, GetLeafRequest, SetLeafRequest, Proof, LeafResponse,
  proof_v0, MongoKvPair, get_contract_id,
}

-- `serialize` is `bincode::serialize` of a proof.
module _ (c : Crypto) (db : Mongo) (serialize : MerkleProof Hash → Option Bytes) where
  open db use {State, MongoError}

  abbrev pub Reply : Type 0 → Type 0
  Reply = Action (Status MongoError) State

  -- `?` on a result of the crate's own error type
  abbrev pub inside : {A : Type 0} → Action (Error MongoError) State A → Reply A
  inside = map_error status_of

  abbrev pub checked : {A : Type 0} → Outcome (Error MongoError) A → Reply A
  checked r = lift (map_err status_of r)

  abbrev pub refuse : {A : Type 0} → Message MongoError → Reply A
  refuse m = throw (record { code = bad_argument; message = m })

  -- `new_collection(&contract_id, false)`
  unfoldable pub open_collection : MongoKvPair → ContractId → Reply (Col c db)
  open_collection server id =
      inside (map_error mongodb (new_collection c db server.with_indexes id false))

  unfoldable pub get_root : MongoKvPair → Request GetRootRequest → Reply Bytes
  get_root server request = do
    id ← lift (get_contract_id c server request request.inner.contract_id)
    col ← open_collection server id
    r ← inside (must_get_root_merkle_record c db col)
    pure (r.hash).bytes

  unfoldable pub set_root : MongoKvPair → Request SetRootRequest → Reply Bytes
  set_root server request = do
    id ← lift (get_contract_id c server request request.inner.contract_id)
    col ← open_collection server id
    hash ← checked (hash_of_slice request.inner.hash)
    r ← inside (must_get_merkle_record c db col 0 hash)
    inside (update_root_merkle_record c db col r)
    pure (r.hash).bytes

  -- The answer of a request with the proof type that it asked for.
  unfoldable pub proof_message : ℕ → MerkleProof Hash → Reply (Option Proof)
  proof_message proof_type proof =
      if proof_type == proof_v0
      then (do
        bytes ← lift (unwrap (serialize proof))
        pure (some (record { proof_type = proof_type; proof = bytes })))
      else pure none

  -- `collection.commit()`. The handlers open their collection without a session, so the loop of
  -- `commit` has no round to make.
  unfoldable pub finish : Col c db → Reply (Unit {0})
  finish col = inside (map_error mongodb (commit c db 0 col)) >> pure tt

  -- The test that a hash in the request is the leaf's.
  unfoldable pub check_leaf_hash : Option Bytes → Hash → Reply (Unit {0})
  check_leaf_hash none source = pure tt
  check_leaf_hash (some bytes) source = do
    hash ← checked (hash_of_slice bytes)
    let error = invalid_argument "Leaf not in current root"
    if not (hash_eq hash source) then throw (status_of error) else pure tt

  unfoldable pub leaf_in_root : Col c db → GetLeafRequest → Reply (MerkleRecord × Option Proof)
  leaf_in_root col request = do
    found ← inside (get_leaf_and_proof c db col request.index)
    check_leaf_hash request.hash (found.1).source
    proof ← proof_message request.proof_type found.1
    pure (found.0, proof)

  unfoldable pub leaf_by_hash : Col c db → ℕ → Bytes → Reply (MerkleRecord × Option Proof)
  leaf_by_hash col index bytes = do
    hash ← checked (hash_of_slice bytes)
    r ← inside (must_get_merkle_record c db col index hash)
    pure (r, none)

  -- The match on the request's hash and proof type.
  unfoldable pub find_leaf : Col c db → GetLeafRequest → Reply (MerkleRecord × Option Proof)
  find_leaf col request = elim request.hash [
    | none ↦ leaf_in_root col request
    | some bytes ↦
        if not (request.proof_type == proof_v0)
        then leaf_by_hash col request.index bytes
        else leaf_in_root col request
  ]

  -- The record with the default leaf's hash is shown with the hash of 32 zeros.
  abbrev pub shown : Hash → MerkleRecord → MerkleRecord
  shown default r = if hash_eq r.hash default then record r { hash = zero_hash } else r

  unfoldable pub leaf_node : Col c db → MerkleRecord → Reply Node
  leaf_node col r = do
    d ← inside (get_datahash_record c db col r.hash)
    elim d [
      | some datahash_record ↦ checked (node_of_records r datahash_record)
      | none ↦ pure (new_simple_leaf r.index r.hash)
    ]

  unfoldable pub get_leaf : MongoKvPair → Request GetLeafRequest → Reply LeafResponse
  get_leaf server request = do
    id ← lift (get_contract_id c server request request.inner.contract_id)
    col ← open_collection server id
    found ← find_leaf col request.inner
    default ← lift (unwrap_result (get_default_hash_for_depth c merkle_tree_height))
    node ← leaf_node col (shown default found.0)
    finish col
    pure (record { node = some node; proof = found.1 })

  -- The hash of a leaf whose data are given: the request's, or the Poseidon hash of the data.
  unfoldable pub leaf_hash : Option Bytes → Bytes → Reply Hash
  leaf_hash (some hash) bytes = checked (hash_of_slice hash)
  leaf_hash none bytes = do hash ← checked (Poseidon.hash c bytes); pure (record { bytes = hash })

  -- The match on the request's data and hash: the record to set, and the node to answer with.
  unfoldable pub leaf_to_set :
      Col c db → ℕ → Option Bytes → Option Bytes → Reply (MerkleRecord × Node)
  leaf_to_set col index (some bytes) hash = do
    hash' ← leaf_hash hash bytes
    let merkle_record = new_leaf index hash'
    let datahash_record : DataHashRecord = record { hash = hash'; bytes = bytes }
    inside (insert_datahash_record c db col datahash_record)
    node ← checked (node_of_records merkle_record datahash_record)
    pure (merkle_record, node)
  leaf_to_set col index none (some hash) = do
    hash' ← checked (hash_of_slice hash)
    pure (new_leaf index hash', new_simple_leaf index hash')
  leaf_to_set col index none none = refuse (text "Both data and data hash are not provided")

  unfoldable pub set_leaf : MongoKvPair → Request SetLeafRequest → Reply LeafResponse
  set_leaf server request = do
    id ← lift (get_contract_id c server request request.inner.contract_id)
    col ← open_collection server id
    let message = request.inner
    found ← leaf_to_set col message.index message.bytes message.hash
    proof ← inside (set_leaf_and_get_proof c db col found.0)
    proof' ← proof_message message.proof_type proof
    finish col
    pure (record { node = some found.1; proof = proof' })
